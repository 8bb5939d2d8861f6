-- ===== src/Integrity/Chain/Intact.antt =====
-- What an intact chain is.
use open_audit_model.Common.{
  ℕ, ◌≤◌, ◌<◌, String, ◌≡◌, refl, ◌↔◌, inl, inr, true, false, none, some, List, [], ◌∷◌, ◌++◌,
  arith, ltb, Bool-cases, is_none, length, length-append, All, ◌===◌, ===→≡, ≡→===, has,
  distinct_from, Sign, Adjacent, Option,
}
use open_audit_model.Integrity.Findings.{at_event, FindingKind}
use open_audit_model.Integrity.Hex.{is_hex_digest}
use open_audit_model.Integrity.Hex.RoundTrip.{}
use open_audit_model.Integrity.Chain.{
  is_empty, digest_findings_of, algorithm_of, canonicalization_of, sequence_findings, linkable,
  link_finding, link_findings_from, link_findings, ChainMember,
}
use open_audit_model.Integrity.Chain.Verify.{ordered}

-- A member follows another in a chain: its sequence is greater, and the previous hash that it
-- declares is the hash of the other, in the accepted encoding.
pub record Follows (before after : ChainMember) : Type 0 where
  pub earlier : ℕ
  pub later : ℕ
  pub shared : String
  pub before_sequence : before.sequence ≡ some earlier
  pub after_sequence : after.sequence ≡ some later
  pub increases : earlier < later
  pub before_hash : before.hash ≡ some shared
  pub after_previous : after.previous_hash ≡ some shared
  pub is_digest : is_hex_digest shared ≡ true

-- Members that all give one answer.
abbrev pub Agree : (ChainMember → String) → List ChainMember → Type 0
Agree f [] = Unit
Agree f (m ∷ ms) = All (λ n. f m ≡ f n) ms

-- What an intact chain is, for its members in order.
pub record IsIntact (locale_compare : String → String → Sign) (members : List ChainMember)
    : Type 0 where
  pub digests : All (λ m. m.digest_findings ≡ []) members
  pub one_algorithm : Agree algorithm_of members
  pub one_canonicalization : Agree canonicalization_of members
  pub sequenced : All (λ m. is_none m.sequence ≡ false) members
  pub linked : Adjacent Follows (ordered locale_compare members)

pub is_empty_append {ℓ} :
    {A : Type ℓ} (xs ys : List A)
    → (is_empty (xs ++ ys) ≡ true) ↔ ((is_empty xs ≡ true) × (is_empty ys ≡ true))
is_empty_append [] ys = (λ e. (refl, e), λ p. p.1)
is_empty_append (x ∷ xs) ys = (λ e. cc, λ p. p.0)

pub is_empty_iff {ℓ} : {A : Type ℓ} (xs : List A) → (is_empty xs ≡ true) ↔ (xs ≡ [])
is_empty_iff [] = (λ e. refl, λ e. refl)
is_empty_iff (x ∷ xs) = (λ e. cc, λ e. cc)

pub digests_iff :
    (members : List ChainMember)
    → (is_empty (digest_findings_of members) ≡ true) ↔ All (λ m. m.digest_findings ≡ []) members
digests_iff [] = (λ e. tt, λ h. refl)
digests_iff (m ∷ ms) = (
  λ e.
      let (a, b) = (is_empty_append m.digest_findings (digest_findings_of ms)).0 e in
      ((is_empty_iff m.digest_findings).0 a, (digests_iff ms).0 b),
  λ h.
      (is_empty_append m.digest_findings (digest_findings_of ms)).1
        ((is_empty_iff m.digest_findings).1 h.0, (digests_iff ms).1 h.1),
)

pub sequences_iff :
    (members : List ChainMember)
    → (is_empty (sequence_findings members) ≡ true) ↔ All (λ m. is_none m.sequence ≡ false) members
sequences_iff [] = (λ e. tt, λ h. refl)
sequences_iff (m ∷ ms) = elim (Bool-cases (is_none m.sequence)) [
  | inl n ↦ (λ e. cc (rw n at e), λ h. cc (h.0, n))
  | inr s ↦ (λ e. (s, (sequences_iff ms).0 (rw s at e)), λ h. rw s ((sequences_iff ms).1 h.1))
]

-- The links.
abbrev pub Links : ChainMember → ChainMember → Type 0
Links before after = link_finding before after ≡ none

Links-iff :
    (m : ChainMember) (ms : List ChainMember)
    → (is_empty (link_findings_from m ms) ≡ true) ↔ Adjacent Links (m ∷ ms)
Links-iff m [] = (λ e. (tt, tt), λ h. refl)
Links-iff m (n ∷ ns) = (
  λ e. let (a, b) = (step (link_finding m n)).0 e in (a, (Links-iff n ns).0 b),
  λ h. (step (link_finding m n)).1 (h.0, (Links-iff n ns).1 h.1),
)
  where
    step :
        (o : Option FindingKind)
        → (is_empty (elim o [
          | none ↦ link_findings_from n ns
          | some kind ↦ at_event kind n.label ∷ link_findings_from n ns
        ])
            ≡ true)
          ↔ ((o ≡ none) × (is_empty (link_findings_from n ns) ≡ true))
    step none = (λ e. (refl, e), λ p. p.1)
    step (some k) = (λ e. cc, λ p. cc p.0)

pub all-Links_iff :
    (ms : List ChainMember) → (is_empty (link_findings ms) ≡ true) ↔ Adjacent Links ms
all-Links_iff [] = (λ e. tt, λ h. refl)
all-Links_iff (m ∷ ms) = Links-iff m ms

pub linkable_all :
    (ms : List ChainMember) → All (λ m. is_none m.sequence ≡ false) ms → linkable ms ≡ ms
linkable_all [] h = refl
linkable_all (m ∷ ms) (p, h) = rw (p, linkable_all ms h) refl

-- The distinct values of a list are one at most when they agree.
pub distinct_constant :
    (x : String) (xs : List String)
    → (ltb 1 (length (distinct_from ◌===◌ (x ∷ []) xs)) ≡ false) ↔ All (λ y. x ≡ y) xs
distinct_constant x [] = (λ e. tt, λ h. refl)
distinct_constant x (y ∷ ys) = elim (Bool-cases (x === y)) [
  | inl e ↦ (
    λ h. (===→≡ x y e, (distinct_constant x ys).0 (rw e at h)),
    λ h. rw e ((distinct_constant x ys).1 h.1),
  )
  | inr n ↦
      (λ h. absurd (two ys (x ∷ y ∷ []) (omega arith) (rw n at h)), λ h. cc (≡→=== x y h.0, n))
]
  where
    two :
        (zs seen : List String)
        → 2 ≤ length seen
        → ltb 1 (length (distinct_from ◌===◌ seen zs)) ≡ false
        → ⊥
    two [] seen l e = ground arith
    two (z ∷ zs) seen l e = elim (Bool-cases (has ◌===◌ seen z)) [
      | inl h ↦ two zs seen l (rw h at e)
      | inr n ↦ two zs (seen ++ z ∷ []) (omega (arith, length-append seen (z ∷ []))) (rw n at e)
    ]
