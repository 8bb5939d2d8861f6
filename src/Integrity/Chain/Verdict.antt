-- ===== src/Integrity/Chain/Verdict.antt =====
-- When a chain is intact.
use open_audit_model.Common.{
  ℕ, ◌≤◌, String, ◌≡◌, refl, sym, subst, ◌↔◌, inl, inr, true, false, List, [], ◌∷◌, arith, ltb,
  ◌==◌, lt→ltb, ==_iff, Bool-cases, Sign, is_positive, sign_of_difference, All-sort, Adjacent,
  sort_id, sort-Ascends,
}
use open_audit_model.Integrity.Chain.{is_empty, link_findings, ChainMember}
use open_audit_model.Integrity.Chain.Verify.{compare_members, ordered, verify_one_chain}
use open_audit_model.Integrity.Chain.Intact.{
  is_empty_append, digests_iff, sequences_iff, all-Links_iff, linkable_all, IsIntact,
}
use open_audit_model.Integrity.Chain.Order.{
  key, IsSequenced, Increases, Increases-of_counts, counts_of_Increases, duplicates_iff,
}
use open_audit_model.Integrity.Chain.Links.{all_follow, of_all_follow, algorithms_iff}

module _ (locale_compare : String → String → Sign) where
  above :
      (x y : ChainMember) → is_positive (compare_members locale_compare x y) ≡ true → key y ≤ key x
  above x y e = elim (Bool-cases (key x == key y)) [
    | inl s ↦ omega (arith, (==_iff _ _).0 s)
    | inr d ↦ differ (key x) (key y) (rw d at e)
  ]
    where
      differ : (a b : ℕ) → is_positive (sign_of_difference a b) ≡ true → b ≤ a
      differ a b e = ground arith

  below :
      (x y : ChainMember) → is_positive (compare_members locale_compare x y) ≡ false → key x ≤ key y
  below x y e = elim (Bool-cases (key x == key y)) [
    | inl s ↦ omega (arith, (==_iff _ _).0 s)
    | inr d ↦ differ (key x) (key y) (rw d at e)
  ]
    where
      differ : (a b : ℕ) → is_positive (sign_of_difference a b) ≡ false → a ≤ b
      differ a b e = ground arith

  -- Members whose sequences increase are in order.
  pub ordered_of_Increases :
      (ms : List ChainMember) → Adjacent Increases ms → ordered locale_compare ms ≡ ms
  ordered_of_Increases ms h = sort_id (compare_members locale_compare) key ms (go ms h)
    where
      go :
          (ms : List ChainMember)
          → Adjacent Increases ms
          → Adjacent (λ x y. is_positive (compare_members locale_compare x y) ≡ false) ms
      go [] h = tt
      go (m ∷ []) h = (tt, tt)
      go (m ∷ n ∷ ns) (i, h) = (before m n i, go (n ∷ ns) h)
        where
          before :
              (m n : ChainMember)
              → Increases m n
              → is_positive (compare_members locale_compare m n) ≡ false
          before m n i =
              let d : (key m == key n) ≡ false = ground arith in
              let l : ltb (key m) (key n) ≡ true = lt→ltb _ _ i in rw (d, l) refl

  -- A chain is intact exactly when every event's own digest holds, all events share one hash
  -- algorithm and one canonicalization, every event has a sequence, and in the order of their
  -- sequences each event follows its predecessor: its sequence is greater, and the previous hash
  -- that it declares is the predecessor's hash.
  pub verify_one_chain-intact_iff :
      (chain_id : String) (members : List ChainMember) (batch_chains : List (String × List String))
      → ((verify_one_chain locale_compare chain_id members batch_chains).intact ≡ true)
        ↔ IsIntact locale_compare members
  unfolding verify_one_chain
  verify_one_chain-intact_iff chain_id members batch_chains = (
    λ e.
        let (d, e1) = (is_empty_append _ _).0 e in
        let (a, e2) = (is_empty_append _ _).0 e1 in
        let (s, e3) = (is_empty_append _ _).0 e2 in
        let (u, l) = (is_empty_append _ _).0 e3 in
        let sequenced = (sequences_iff members).0 s in
        let in_order = All-sort (compare_members locale_compare) IsSequenced members sequenced in
        record {
          digests = (digests_iff members).0 d;
          one_algorithm = ((algorithms_iff members).0 a).0;
          one_canonicalization = ((algorithms_iff members).0 a).1;
          sequenced = sequenced;
          linked =
              all_follow (ordered locale_compare members) in_order
                (Increases-of_counts (ordered locale_compare members) in_order
                  (sort-Ascends (compare_members locale_compare) key above below members)
                  ((duplicates_iff (ordered locale_compare members)).0 u))
                ((all-Links_iff (ordered locale_compare members)).0 (
                  subst (λ ms. is_empty (link_findings ms) ≡ true)
                    (linkable_all (ordered locale_compare members) in_order) l));
        },
    λ i.
        let in_order = All-sort (compare_members locale_compare) IsSequenced members i.sequenced in
        let (n, l) = of_all_follow (ordered locale_compare members) i.linked in
        (is_empty_append _ _).1 (
          (digests_iff members).1 i.digests,
          (is_empty_append _ _).1 (
            (algorithms_iff members).1 (i.one_algorithm, i.one_canonicalization),
            (is_empty_append _ _).1 (
              (sequences_iff members).1 i.sequenced,
              (is_empty_append _ _).1 (
                (duplicates_iff (ordered locale_compare members)).1
                    (counts_of_Increases (ordered locale_compare members) in_order n),
                subst (λ ms. is_empty (link_findings ms) ≡ true)
                    (sym (linkable_all (ordered locale_compare members) in_order))
                    ((all-Links_iff (ordered locale_compare members)).1 l),
              ),
            ),
          ),
        ),
  )
