-- ===== src/Integrity/Chain/Head.antt =====
-- What a report says of the extent and the head of an intact chain.
use open_audit_model.Common.{
  ℕ, ◌<◌, ◌≡◌, refl, sym, ap, ◌∙◌, inl, inr, false, none, some, List, [], ◌∷◌, ◌++◌, map, arith,
  ◌==◌, ==_iff, Bool-cases, select, last?, flat_map, All, append_nil, append_assoc, has, distinct,
  distinct_from, is_key, is_positive, sort, Adjacent, sort_id, String, subst, true, length, Sign,
  All-sort, members_of-collect, length-sort,
}
use open_audit_model.Integrity.Findings.{}
use open_audit_model.Integrity.Chain.{by_number, sequences_of, ChainMember, linkable, by_sequence}
use open_audit_model.Integrity.Chain.Verify.{
  compare_members, ordered, verify_one_chain, only_hash, head_hash_of,
}
use open_audit_model.Integrity.Chain.Intact.{linkable_all, Follows}
use open_audit_model.Integrity.Chain.Order.{
  key, IsSequenced, Increases, sequence_of_key, above_head, same_ℕ, refl_ℕ,
}
use open_audit_model.Integrity.Chain.Links.{of_all_follow}
use open_audit_model.Integrity.Chain.Verdict.{verify_one_chain-intact_iff}

has_none-append :
    (seen : List ℕ) (x y : ℕ)
    → has ◌==◌ seen y ≡ false
    → x < y
    → has ◌==◌ (seen ++ x ∷ []) y ≡ false
has_none-append [] x y h l = ground arith
has_none-append (z ∷ zs) x y h l = elim (Bool-cases (z == y)) [
  | inl e ↦ cc (rw e at h)
  | inr d ↦ rw d (has_none-append zs x y (rw d at h) l)
]

unseen-append :
    (seen : List ℕ) (x : ℕ) (ms : List ChainMember)
    → All (λ m. has ◌==◌ seen (key m) ≡ false) ms
    → All (λ m. x < key m) ms
    → All (λ m. has ◌==◌ (seen ++ x ∷ []) (key m) ≡ false) ms
unseen-append seen x [] h a = tt
unseen-append seen x (m ∷ ms) (p, h) (l, a) =
    (has_none-append seen x (key m) p l, unseen-append seen x ms h a)

-- Keys that increase are all distinct.
distinct_from-keys :
    (seen : List ℕ) (ms : List ChainMember)
    → Adjacent Increases ms
    → All (λ m. has ◌==◌ seen (key m) ≡ false) ms
    → distinct_from ◌==◌ seen (map key ms) ≡ seen ++ map key ms
distinct_from-keys seen [] i u = sym (append_nil seen)
distinct_from-keys seen (m ∷ ms) i (p, u) =
    rw (distinct_from, p)
      (distinct_from-keys (seen ++ key m ∷ []) ms i.1
          (unseen-append seen (key m) ms u (above_head m ms i))
        ∙ append_assoc seen (key m ∷ []) (map key ms))

none_seen : (ms : List ChainMember) → All (λ m. has ◌==◌ [] (key m) ≡ false) ms
none_seen [] = tt
none_seen (m ∷ ms) = (refl, none_seen ms)

numbers_of_sequenced :
    (ms : List ChainMember)
    → All IsSequenced ms
    → flat_map (λ m. elim m.sequence [ none ↦ [] | some n ↦ n ∷ [] ]) ms ≡ map key ms
numbers_of_sequenced [] s = refl
numbers_of_sequenced (m ∷ ms) (p, s) = rw (sequence_of_key m p, numbers_of_sequenced ms s) refl

sorted_keys :
    (ms : List ChainMember)
    → Adjacent Increases ms
    → Adjacent (λ x y. is_positive (by_number x y) ≡ false) (map key ms)
sorted_keys [] i = tt
sorted_keys (m ∷ []) i = (tt, tt)
sorted_keys (m ∷ n ∷ ns) (l, i) = (in_order (key m) (key n) l, sorted_keys (n ∷ ns) i)
  where
    in_order : (a b : ℕ) → a < b → is_positive (by_number a b) ≡ false
    in_order a b l = ground arith

-- The sequences of members that increase are their keys, in order.
sequences_of-keys :
    (ms : List ChainMember)
    → All IsSequenced ms
    → Adjacent Increases ms
    → sequences_of ms ≡ map key ms
sequences_of-keys ms s i =
    ap (λ ns. sort by_number (distinct ◌==◌ ns)) (numbers_of_sequenced ms s)
    ∙ (ap (sort by_number) (distinct_from-keys [] ms i (none_seen ms))
        ∙ sort_id by_number (λ n. n) (map key ms) (sorted_keys ms i))

last-keys :
    (front : List ChainMember) (m : ChainMember) → last? (map key (front ++ m ∷ [])) ≡ some (key m)
last-keys [] m = refl
last-keys (x ∷ []) m = refl
last-keys (x ∷ y ∷ ys) m = last-keys (y ∷ ys) m

-- The last of members that increase is the only one with its sequence.
select-last :
    (front : List ChainMember) (m : ChainMember)
    → All IsSequenced (front ++ m ∷ [])
    → Adjacent Increases (front ++ m ∷ [])
    → select (λ x. is_key ◌==◌ (key m) x.sequence) (front ++ m ∷ []) ≡ m ∷ []
select-last [] m (s, t) i = rw (sequence_of_key m s, (==_iff (key m) (key m)).1 refl) refl
select-last (x ∷ xs) m (s, t) i =
    rw (sequence_of_key x s, differ (key x) (key m) (below xs (above_head x (xs ++ m ∷ []) i)))
      (select-last xs m t i.1)
  where
    differ : (a b : ℕ) → a < b → (a == b) ≡ false
    differ a b l = ground arith

    below : (xs : List ChainMember) → All (λ y. key x < key y) (xs ++ m ∷ []) → key x < key m
    below [] h = h.0
    below (y ∷ ys) h = below ys h.1

module _ (locale_compare : String → String → Sign) where
  -- For an intact chain, and its members in the order of their sequences with `m` the last: the
  -- report counts the members, its last sequence is the sequence of `m`, and its head hash is the
  -- hash of `m`.
  pub verify_one_chain-head :
      (chain_id : String) (members : List ChainMember) (batch_chains : List (String × List String))
      (front : List ChainMember) (m : ChainMember)
      → (verify_one_chain locale_compare chain_id members batch_chains).intact ≡ true
      → ordered locale_compare members ≡ front ++ m ∷ []
      → ((verify_one_chain locale_compare chain_id members batch_chains).event_count
          ≡ length (front ++ m ∷ []))
        × ((verify_one_chain locale_compare chain_id members batch_chains).last_sequence
            ≡ m.sequence)
        × ((verify_one_chain locale_compare chain_id members batch_chains).head_hash ≡ m.hash)
  unfolding verify_one_chain
  verify_one_chain-head chain_id members batch_chains front m e o =
      let intact = (verify_one_chain-intact_iff locale_compare chain_id members batch_chains).0 e in
      let in_order =
        subst (All IsSequenced) o
          (All-sort (compare_members locale_compare) IsSequenced members intact.sequenced) in
      let increasing =
        (of_all_follow (front ++ m ∷ []) (subst (Adjacent Follows) o intact.linked)).0 in
      let last = extent front m in_order increasing in
      (
        sym (length-sort (compare_members locale_compare) members) ∙ ap length o,
        ap (λ ms. last? (sequences_of (linkable ms))) o
            ∙ (last ∙ sym (sequence_of_key m (last_of front in_order))),
        ap (λ ms. head_hash_of locale_compare (last? (sequences_of (linkable ms))) (by_sequence ms))
              o
            ∙ (ap (λ n. head_hash_of locale_compare n (by_sequence (front ++ m ∷ []))) last
                ∙ ap (only_hash locale_compare) (
                    members_of-collect ◌==◌ refl_ℕ same_ℕ (λ x. x.sequence) (key m)
                      (front ++ m ∷ []) []
                    ∙ select-last front m in_order increasing)),
      )
    where
      extent :
          (front : List ChainMember) (m : ChainMember)
          → All IsSequenced (front ++ m ∷ [])
          → Adjacent Increases (front ++ m ∷ [])
          → last? (sequences_of (linkable (front ++ m ∷ []))) ≡ some (key m)
      extent front m s i =
          ap (λ ms. last? (sequences_of ms)) (linkable_all (front ++ m ∷ []) s)
          ∙ (ap last? (sequences_of-keys (front ++ m ∷ []) s i) ∙ last-keys front m)

      last_of : (front : List ChainMember) → All IsSequenced (front ++ m ∷ []) → IsSequenced m
      last_of [] s = s.0
      last_of (x ∷ xs) s = last_of xs s.1
