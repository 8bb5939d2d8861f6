-- ===== src/Integrity/Chain/Links.antt =====
-- The links of a chain, and whether its members are sealed alike.
use open_audit_model.Common.{
  ◌<◌, String, ◌≡◌, refl, sym, ap, ◌∙◌, subst, ◌↔◌, inl, inr, Bool, true, false, ◌||◌, Option, none,
  some, List, [], ◌∷◌, map, ltb, if◌then◌else◌, Bool-cases, value_or, length, All, ◌===◌, distinct,
  Adjacent,
}
use open_audit_model.Integrity.Findings.{
  overall, previous_hash_missing, broken_link, algorithm_mismatch,
}
use open_audit_model.Integrity.Hex.{is_hex_digest, digests_equal}
use open_audit_model.Integrity.Hex.RoundTrip.{digests_equal_iff}
use open_audit_model.Integrity.Chain.{
  max_safe_integer, is_empty, algorithm_of, canonicalization_of, algorithm_findings, ChainMember,
}
use open_audit_model.Integrity.Chain.Verify.{}
use open_audit_model.Integrity.Chain.Intact.{Agree, Links, distinct_constant, Follows}
use open_audit_model.Integrity.Chain.Order.{key, IsSequenced, Increases, sequence_of_key}

-- A link that holds.
record IsLink (before after : ChainMember) : Type 0 where
  shared : String
  before_hash : before.hash ≡ some shared
  after_previous : after.previous_hash ≡ some shared
  is_digest : is_hex_digest shared ≡ true

IsLink-of : (before after : ChainMember) → Links before after → IsLink before after
IsLink-of before after e = go after.previous_hash before.hash refl refl e
  where
    compared :
        (p h : String)
        → after.previous_hash ≡ some p
        → before.hash ≡ some h
        → (if digests_equal p h then none else some broken_link) ≡ none
        → IsLink before after
    compared p h ep eh e = elim (Bool-cases (digests_equal p h)) [
      | inr d ↦ cc (rw d at e)
      | inl d ↦
          let (x, same) = (digests_equal_iff p h).0 d in
          record {
            shared = p;
            before_hash = eh ∙ ap some (sym same);
            after_previous = ep;
            is_digest = x;
          }
    ]

    go :
        (p h : Option String)
        → after.previous_hash ≡ p
        → before.hash ≡ h
        → (elim p [
          | none ↦ some previous_hash_missing
          | some previous ↦ elim h [
            | none ↦ some broken_link
            | some hash ↦ if digests_equal previous hash then none else some broken_link
          ]
        ])
          ≡ none
        → IsLink before after
    go none h ep eh e = cc
    go (some p) none ep eh e = cc
    go (some p) (some h) ep eh e = compared p h ep eh e

Links-of : (before after : ChainMember) → IsLink before after → Links before after
Links-of before after l =
    rw
      (l.after_previous, l.before_hash, (digests_equal_iff l.shared l.shared).1 (l.is_digest, refl))
      refl

Follows-of :
    (before after : ChainMember)
    → IsSequenced before
    → IsSequenced after
    → Increases before after
    → Links before after
    → Follows before after
Follows-of before after s r i e =
    let l = IsLink-of before after e in
    record {
      earlier = key before;
      later = key after;
      shared = l.shared;
      before_sequence = sequence_of_key before s;
      after_sequence = sequence_of_key after r;
      increases = i;
      before_hash = l.before_hash;
      after_previous = l.after_previous;
      is_digest = l.is_digest;
    }

of_Follows :
    (before after : ChainMember)
    → Follows before after
    → Increases before after × Links before after
of_Follows before after f = (
  subst (λ o. value_or o max_safe_integer < value_or after.sequence max_safe_integer)
      (sym f.before_sequence)
      (subst (λ o. f.earlier < value_or o max_safe_integer) (sym f.after_sequence) f.increases),
  Links-of before after (record {
    shared = f.shared;
    before_hash = f.before_hash;
    after_previous = f.after_previous;
    is_digest = f.is_digest;
  }),
)

pub all_follow :
    (ms : List ChainMember)
    → All IsSequenced ms
    → Adjacent Increases ms
    → Adjacent Links ms
    → Adjacent Follows ms
all_follow [] s i l = tt
all_follow (m ∷ []) s i l = (tt, tt)
all_follow (m ∷ n ∷ ns) (s, (r, q)) (i, is) (l, ls) =
    (Follows-of m n s r i l, all_follow (n ∷ ns) (r, q) is ls)

pub of_all_follow :
    (ms : List ChainMember) → Adjacent Follows ms → Adjacent Increases ms × Adjacent Links ms
of_all_follow [] h = (tt, tt)
of_all_follow (m ∷ []) h = ((tt, tt), (tt, tt))
of_all_follow (m ∷ n ∷ ns) (f, h) =
    let (i, l) = of_Follows m n f in let (is, ls) = of_all_follow (n ∷ ns) h in ((i, is), (l, ls))

Agree-iff :
    (f : ChainMember → String) (ms : List ChainMember)
    → (ltb 1 (length (distinct ◌===◌ (map f ms))) ≡ false) ↔ Agree f ms
Agree-iff f [] = (λ e. tt, λ h. refl)
Agree-iff f (m ∷ ms) = (
  λ e. unmap ms ((distinct_constant (f m) (map f ms)).0 e),
  λ h. (distinct_constant (f m) (map f ms)).1 (remap ms h),
)
  where
    unmap : (xs : List ChainMember) → All (λ y. f m ≡ y) (map f xs) → All (λ n. f m ≡ f n) xs
    unmap [] h = tt
    unmap (x ∷ xs) (p, h) = (p, unmap xs h)

    remap : (xs : List ChainMember) → All (λ n. f m ≡ f n) xs → All (λ y. f m ≡ y) (map f xs)
    remap [] h = tt
    remap (x ∷ xs) (p, h) = (p, remap xs h)

pub algorithms_iff :
    (ms : List ChainMember)
    → (is_empty (algorithm_findings ms) ≡ true)
      ↔ (Agree algorithm_of ms × Agree canonicalization_of ms)
algorithms_iff ms = (
  λ e.
      let (a, b) =
        (decide (ltb 1 (length (distinct ◌===◌ (map algorithm_of ms))))
            (ltb 1 (length (distinct ◌===◌ (map canonicalization_of ms))))).0
          e in
      ((Agree-iff algorithm_of ms).0 a, (Agree-iff canonicalization_of ms).0 b),
  λ p.
      (decide (ltb 1 (length (distinct ◌===◌ (map algorithm_of ms))))
          (ltb 1 (length (distinct ◌===◌ (map canonicalization_of ms))))).1
        ((Agree-iff algorithm_of ms).1 p.0, (Agree-iff canonicalization_of ms).1 p.1),
)
  where
    decide :
        (a b : Bool)
        → (is_empty (if a || b then overall algorithm_mismatch ∷ [] else []) ≡ true)
          ↔ ((a ≡ false) × (b ≡ false))
    decide true b = (λ e. cc, λ p. cc p.0)
    decide false true = (λ e. cc, λ p. cc p.1)
    decide false false = (λ e. (refl, refl), λ p. refl)
