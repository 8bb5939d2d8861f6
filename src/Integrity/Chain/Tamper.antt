-- ===== src/Integrity/Chain/Tamper.antt =====
-- Events removed from a chain: from its middle, and from its end.
use open_audit_model.Common.{
  ℕ, suc, ◌<◌, String, ◌≡◌, refl, sym, ◌∙◌, subst, ◌≢◌, inl, inr, true, false, List, [], ◌∷◌, ◌++◌,
  arith, Bool-cases, take, All, All-take, Sign, All-sort, Before, Adjacent, zero,
}
use open_audit_model.Integrity.Findings.{}
use open_audit_model.Integrity.Chain.{algorithm_of, canonicalization_of, ChainMember}
use open_audit_model.Integrity.Chain.Verify.{compare_members, ordered, verify_one_chain}
use open_audit_model.Integrity.Chain.Intact.{Agree, Follows}
use open_audit_model.Integrity.Chain.Order.{key, IsSequenced, Increases}
use open_audit_model.Integrity.Chain.Links.{of_all_follow}
use open_audit_model.Integrity.Chain.Verdict.{ordered_of_Increases, verify_one_chain-intact_iff}

module _ {ℓ} {A : Type ℓ} (R : A → A → Type 0) where
  Adjacent-suffix :
      (xs : List A) (p : A) (zs : List A) → Adjacent R (xs ++ p ∷ zs) → Adjacent R (p ∷ zs)
  Adjacent-suffix [] p zs h = h
  Adjacent-suffix (x ∷ xs) p zs h = Adjacent-suffix xs p zs h.1

  Adjacent-replace :
      (xs : List A) (p : A) (zs ws : List A)
      → Adjacent R (xs ++ p ∷ zs)
      → Adjacent R (p ∷ ws)
      → Adjacent R (xs ++ p ∷ ws)
  Adjacent-replace [] p zs ws h k = k
  Adjacent-replace (x ∷ []) p zs ws h k = (h.0, k)
  Adjacent-replace (x ∷ y ∷ xs) p zs ws h k = (h.0, Adjacent-replace (y ∷ xs) p zs ws h.1 k)

  Adjacent-take : (n : ℕ) (xs : List A) → Adjacent R xs → Adjacent R (take n xs)
  Adjacent-take zero xs h = tt
  Adjacent-take (suc n) [] h = tt
  Adjacent-take (suc n) (x ∷ xs) (b, h) = (first n xs b, Adjacent-take n xs h)
    where
      first : (n : ℕ) (xs : List A) → Before R x xs → Before R x (take n xs)
      first zero xs b = tt
      first (suc n) [] b = tt
      first (suc n) (y ∷ ys) b = b

Agree-of_all :
    (f : ChainMember → String) (x : String) (ms : List ChainMember)
    → All (λ n. x ≡ f n) ms
    → Agree f ms
Agree-of_all f x [] h = tt
Agree-of_all f x (m ∷ ms) (p, h) = go ms h
  where
    go : (ns : List ChainMember) → All (λ n. x ≡ f n) ns → All (λ n. f m ≡ f n) ns
    go [] h = tt
    go (n ∷ ns) (q, h) = (sym p ∙ q, go ns h)

all_of_Agree :
    (f : ChainMember → String) (ms : List ChainMember)
    → Agree f ms
    → (x : String) × All (λ n. x ≡ f n) ms
all_of_Agree f [] h = ("", tt)
all_of_Agree f (m ∷ ms) h = (f m, (refl, h))

module _ (locale_compare : String → String → Sign) where
  Agree-take :
      (f : ChainMember → String) (n : ℕ) (ms : List ChainMember)
      → Agree f ms
      → Agree f (take n (ordered locale_compare ms))
  Agree-take f n ms h =
      let (x, a) = all_of_Agree f ms h in
      Agree-of_all f x (take n (ordered locale_compare ms)) (
        All-take (λ m. x ≡ f m) n (ordered locale_compare ms)
          (All-sort (compare_members locale_compare) (λ m. x ≡ f m) ms a))

  -- What a chain does not show: the first events of an intact chain, in the order of their
  -- sequences, are an intact chain wherever they are cut. So events removed from the end leave
  -- nothing that the chain itself could tell.
  pub verify_one_chain-take :
      (chain_id : String) (members : List ChainMember) (seen : List (String × List String)) (n : ℕ)
      → (verify_one_chain locale_compare chain_id members seen).intact ≡ true
      → (verify_one_chain locale_compare chain_id
          (take n (ordered locale_compare members))
          seen).intact
        ≡ true
  verify_one_chain-take chain_id members seen n e =
      let i = (verify_one_chain-intact_iff locale_compare chain_id members seen).0 e in
      let kept = take n (ordered locale_compare members) in
      let linked = Adjacent-take Follows n (ordered locale_compare members) i.linked in
      (verify_one_chain-intact_iff locale_compare chain_id kept seen).1 (record {
        digests =
            All-take (λ m. m.digest_findings ≡ []) n (ordered locale_compare members)
              (All-sort (compare_members locale_compare) (λ m. m.digest_findings ≡ []) members
                i.digests);
        one_algorithm = Agree-take algorithm_of n members i.one_algorithm;
        one_canonicalization = Agree-take canonicalization_of n members i.one_canonicalization;
        sequenced =
            All-take IsSequenced n (ordered locale_compare members)
              (All-sort (compare_members locale_compare) IsSequenced members i.sequenced);
        linked =
            subst (Adjacent Follows)
              (sym (ordered_of_Increases locale_compare kept (of_all_follow kept linked).0)) linked;
      })

  -- Removal shows. If an intact chain has, in the order of its sequences, three neighbours, and the
  -- first two have different hashes, then the chain without the middle one is not intact.
  pub verify_one_chain-removed :
      (chain_id : String) (members xs ys : List ChainMember) (before removed after : ChainMember)
      (seen : List (String × List String))
      → (verify_one_chain locale_compare chain_id members seen).intact ≡ true
      → ordered locale_compare members ≡ xs ++ before ∷ removed ∷ after ∷ ys
      → before.hash ≢ removed.hash
      → (verify_one_chain locale_compare chain_id (xs ++ before ∷ after ∷ ys) seen).intact ≡ false
  verify_one_chain-removed chain_id members xs ys before removed after seen e eo d =
      elim (Bool-cases (verify_one_chain locale_compare chain_id left seen).intact) [
        | inr n ↦ n
        | inl v ↦
            let j = (verify_one_chain-intact_iff locale_compare chain_id left seen).0 v in
            let f =
              (Adjacent-suffix Follows xs before (after ∷ ys) (
                subst (Adjacent Follows) (ordered_of_Increases locale_compare left increases)
                  j.linked)).0 in
            absurd (
              d (
                f.before_hash
                ∙ (sym f.after_previous ∙ (tail.1.0.after_previous ∙ sym tail.1.0.before_hash))))
      ]
    where
      left : List ChainMember
      left = xs ++ before ∷ after ∷ ys

      linked : Adjacent Follows (xs ++ before ∷ removed ∷ after ∷ ys)
      linked =
          subst (Adjacent Follows) eo
            ((verify_one_chain-intact_iff locale_compare chain_id members seen).0 e).linked

      tail : Adjacent Follows (before ∷ removed ∷ after ∷ ys)
      tail = Adjacent-suffix Follows xs before (removed ∷ after ∷ ys) linked

      all_increase : Adjacent Increases (xs ++ before ∷ removed ∷ after ∷ ys)
      all_increase = (of_all_follow _ linked).0

      rest : Adjacent Increases (before ∷ removed ∷ after ∷ ys)
      rest = Adjacent-suffix Increases xs before (removed ∷ after ∷ ys) all_increase

      past : (a b c : ℕ) → a < b → b < c → a < c
      past a b c l m = omega arith

      increases : Adjacent Increases left
      increases =
          Adjacent-replace Increases xs before (removed ∷ after ∷ ys) (after ∷ ys) all_increase
            (past (key before) (key removed) (key after) rest.0 rest.1.0, rest.1.1)
