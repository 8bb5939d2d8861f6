-- ===== src/Integrity/Chain/Order.antt =====
-- The order of a chain's members, and what their sequences say of duplicates.
use open_audit_model.Common.{
  ℕ, suc, ◌≤◌, ◌<◌, ◌≡◌, refl, sym, ◌∙◌, subst, ◌↔◌, inl, inr, true, false, Option, none, some,
  List, [], ◌∷◌, map, arith, ltb, ◌==◌, ltb-false→le, le→not_ltb, ==_iff, Bool-cases, is_none,
  value_or, length, select, All, is_key, members_of, members_of-collect, collect-Keyed,
  members_of-All, All-members_of, sort, All-sort, sort-All, Adjacent,
}
use open_audit_model.Integrity.Findings.{overall, duplicate_sequence}
use open_audit_model.Integrity.Chain.{
  max_safe_integer, is_empty, by_sequence, by_entry, duplicate_findings, ChainMember,
}
use open_audit_model.Integrity.Chain.Verify.{}
use open_audit_model.Integrity.Chain.Intact.{}

abbrev pub key : ChainMember → ℕ
key m = value_or m.sequence max_safe_integer

abbrev pub IsSequenced : ChainMember → Type 0
IsSequenced m = is_none m.sequence ≡ false

abbrev pub Increases : ChainMember → ChainMember → Type 0
Increases m n = key m < key n

-- How many members declare a sequence.
abbrev pub count_at : ℕ → List ChainMember → ℕ
count_at n members = length (select (λ m. is_key ◌==◌ n m.sequence) members)

pub sequence_of_key : (m : ChainMember) → IsSequenced m → m.sequence ≡ some (key m)
sequence_of_key m s = go m.sequence s
  where
    go : (o : Option ℕ) → is_none o ≡ false → o ≡ some (value_or o max_safe_integer)
    go none s = cc
    go (some n) s = refl

pub count_here :
    (n : ℕ) (m : ChainMember) (ms : List ChainMember)
    → IsSequenced m
    → key m ≡ n
    → count_at n (m ∷ ms) ≡ suc (count_at n ms)
count_here n m ms s e = rw (sequence_of_key m s, e, (==_iff n n).1 refl) refl

count_other :
    (n : ℕ) (m : ChainMember) (ms : List ChainMember)
    → IsSequenced m
    → (key m == n) ≡ false
    → count_at n (m ∷ ms) ≡ count_at n ms
count_other n m ms s e = rw (sequence_of_key m s, e) refl

count_more : (n : ℕ) (m : ChainMember) (ms : List ChainMember) → count_at n ms ≤ count_at n (m ∷ ms)
count_more n m ms = elim (Bool-cases (is_key ◌==◌ n m.sequence)) [
  | inl e ↦ rw e (omega arith)
  | inr e ↦ rw e (omega arith)
]

-- Members in order, none of whose sequences stands twice, increase.
pub Increases-of_counts :
    (ms : List ChainMember)
    → All IsSequenced ms
    → Adjacent (λ m n. key m ≤ key n) ms
    → ((n : ℕ) → count_at n ms ≤ 1)
    → Adjacent Increases ms
Increases-of_counts [] s a c = tt
Increases-of_counts (m ∷ []) s a c = (tt, tt)
Increases-of_counts (m ∷ n ∷ ns) (s, (r, q)) (a, b) c = (
  elim (Bool-cases (key m == key n)) [
    | inl e ↦ absurd (
        omega (
          arith,
          c (key n),
          count_here (key n) m (n ∷ ns) s ((==_iff _ _).0 e),
          count_here (key n) n ns r refl,
        ))
    | inr d ↦ strict (key m) (key n) a d
  ],
  Increases-of_counts (n ∷ ns) (r, q) b (λ i. omega (arith, c i, count_more i m (n ∷ ns))),
)
  where
    strict : (a b : ℕ) → a ≤ b → (a == b) ≡ false → a < b
    strict a b l d = ground arith

pub above_head :
    (m : ChainMember) (ms : List ChainMember)
    → Adjacent Increases (m ∷ ms)
    → All (λ x. key m < key x) ms
above_head m [] h = tt
above_head m (n ∷ ns) (l, h) = (l, weaken ns (above_head n ns h))
  where
    weaken : (xs : List ChainMember) → All (λ x. key n < key x) xs → All (λ x. key m < key x) xs
    weaken [] h = tt
    weaken (x ∷ xs) (p, h) = (omega arith, weaken xs h)

pub count_above :
    (n : ℕ) (ms : List ChainMember)
    → All IsSequenced ms
    → All (λ x. n < key x) ms
    → count_at n ms ≡ 0
count_above n [] s h = refl
count_above n (m ∷ ms) (s, r) (p, h) =
    count_other n m ms s (differ (key m) n p) ∙ count_above n ms r h
  where
    differ : (a b : ℕ) → b < a → (a == b) ≡ false
    differ a b l = ground arith

pub counts_of_Increases :
    (ms : List ChainMember)
    → All IsSequenced ms
    → Adjacent Increases ms
    → (n : ℕ) → count_at n ms ≤ 1
counts_of_Increases [] s a n = omega arith
counts_of_Increases (m ∷ ms) (s, r) a n = elim (Bool-cases (key m == n)) [
  | inr d ↦ omega (arith, count_other n m ms s d, counts_of_Increases ms r a.1 n)
  | inl e ↦
      let same = (==_iff (key m) n).0 e in
      omega (
        arith,
        count_here n m ms s same,
        subst (λ n. count_at n ms ≡ 0) same (count_above (key m) ms r (above_head m ms a)),
      )
]

-- The findings about duplicates are none exactly when no sequence stands twice.
duplicates_empty :
    (buckets : List (ℕ × List ChainMember))
    → (is_empty (map (λ b. overall duplicate_sequence) (select (λ b. ltb 1 (length b.1)) buckets))
        ≡ true)
      ↔ All (λ b. ltb 1 (length b.1) ≡ false) buckets
duplicates_empty [] = (λ e. tt, λ h. refl)
duplicates_empty (b ∷ bs) = elim (Bool-cases (ltb 1 (length b.1))) [
  | inl t ↦ (λ e. cc (rw t at e), λ h. cc (h.0, t))
  | inr f ↦ (λ e. (f, (duplicates_empty bs).0 (rw f at e)), λ h. rw f ((duplicates_empty bs).1 h.1))
]

abbrev Few : List ChainMember → Type 0
Few ms = ltb 1 (length ms) ≡ false

pub same_ℕ : (j k : ℕ) → (j == k) ≡ true → j ≡ k
same_ℕ j k e = (==_iff j k).0 e

pub refl_ℕ : (k : ℕ) → (k == k) ≡ true
refl_ℕ k = (==_iff k k).1 refl

pub duplicates_iff :
    (members : List ChainMember)
    → (is_empty (duplicate_findings (by_sequence members)) ≡ true)
      ↔ ((n : ℕ) → count_at n members ≤ 1)
duplicates_iff members = (
  λ e n.
      let h =
        sort-All by_entry (λ b. Few b.1) buckets ((duplicates_empty (sort by_entry buckets)).0 e) in
      ltb-false→le _ _
        (subst Few (collected n) (members_of-All ◌==◌ refl_ℕ same_ℕ Few refl buckets n h)),
  λ c. (duplicates_empty (sort by_entry buckets)).1 (
      All-sort by_entry (λ b. Few b.1) buckets
        (All-members_of ◌==◌ refl_ℕ same_ℕ Few refl buckets
          (collect-Keyed ◌==◌ refl_ℕ same_ℕ (λ m. m.sequence) members [] tt)
          (λ n. subst Few (sym (collected n)) (le→not_ltb _ _ (c n))))),
)
  where
    buckets : List (ℕ × List ChainMember)
    buckets = by_sequence members

    collected :
        (n : ℕ)
        → members_of ◌==◌ (by_sequence members) n ≡ select (λ m. is_key ◌==◌ n m.sequence) members
    collected n = members_of-collect ◌==◌ refl_ℕ same_ℕ (λ m. m.sequence) n members []
