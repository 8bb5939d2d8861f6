-- ===== src/Integrity/Merkle/Total.antt =====
-- The recursions of merkle.ts end: fuel of the number of leaves is enough, so a root and a path
-- come of every list of digests that the program accepts.
use open_audit_model.Common.{
  ℕ, zero, suc, ◌-◌, ◌≤◌, ◌<◌, ◌≡◌, refl, ◌≢◌, inl, inr, some, List, [], ◌∷◌, arith, ◌==◌, ==_iff,
  Bool-cases, ◌>>=◌, length, take, drop, head?, length-take, length-drop, ◌++◌, map, lt→ltb,
  le→not_ltb, String,
}
use open_audit_model.Integrity.Types.{Bytes, Hash, HashAlgorithm}
use native.Mathlib.Decide.{ℕ_discrete}
use mathlib.Core.List.{map-append}
use open_audit_model.Integrity.Hex.{}
use open_audit_model.Integrity.Merkle.{
  split_point, tree_hash, node_hash, expected_sides, left, right, PathStep, Side,
}
use open_audit_model.Integrity.Merkle.Split.{split_point_bounds}

-- Parts of a list at its split point.
pub record Parts {ℓ} {A : Type ℓ} (xs : List A) (k : ℕ) : Type ℓ where
  pub left_pos : 1 ≤ length (take k xs)
  pub right_pos : 1 ≤ length (drop k xs)
  pub left_lt : length (take k xs) < length xs
  pub right_lt : length (drop k xs) < length xs
  pub left_length : length (take k xs) ≡ k
  pub right_length : length (drop k xs) ≡ length xs - k

pub Parts-of {ℓ} :
    {A : Type ℓ} (xs : List A) → 1 ≤ length xs → length xs ≢ 1 → Parts xs (split_point (length xs))
Parts-of xs pos many =
    let (low, high) = split_point_bounds (length xs) (omega arith) in
    let t = length-take (split_point (length xs)) xs in
    let d = length-drop (split_point (length xs)) xs in
    record {
      left_pos = omega arith;
      right_pos = omega arith;
      left_lt = omega arith;
      right_lt = omega arith;
      left_length = omega arith;
      right_length = omega arith;
    }

module _ (h : Hash) (a : HashAlgorithm) where
  pub tree_hash_leaf :
      (f : ℕ) (leaves : List Bytes)
      → length leaves ≡ 1
      → tree_hash h a (suc f) leaves ≡ head? leaves
  unfolding tree_hash
  tree_hash_leaf f leaves e = rw ((==_iff (length leaves) 1).1 e)

  pub tree_hash_node :
      (f : ℕ) (leaves : List Bytes)
      → length leaves ≢ 1
      → tree_hash h a (suc f) leaves ≡ (
          tree_hash h a f (take (split_point (length leaves)) leaves) >>= λ l.
          tree_hash h a f (drop (split_point (length leaves)) leaves) >>= λ r.
          some (node_hash h a l r))
  unfolding tree_hash
  tree_hash_node f leaves e = elim (Bool-cases (length leaves == 1)) [
    | inl one ↦ absurd (e ((==_iff _ _).0 one))
    | inr many ↦ rw many
  ]

  pub tree_hash_total :
      (f : ℕ) (leaves : List Bytes)
      → 1 ≤ length leaves
      → length leaves ≤ f
      → (r : Bytes) × (tree_hash h a f leaves ≡ some r)
  tree_hash_total zero leaves pos le = absurd (omega arith)
  tree_hash_total (suc f) leaves pos le = elim (ℕ_discrete (length leaves) 1) [
    | yes one ↦ rw (tree_hash_leaf f leaves one) (only leaves pos)
    | no many ↦
        let p = Parts-of leaves pos many in
        let (l, el) =
          tree_hash_total f (take (split_point (length leaves)) leaves) p.left_pos
            (omega (arith, p.left_lt)) in
        let (r, er) =
          tree_hash_total f (drop (split_point (length leaves)) leaves) p.right_pos
            (omega (arith, p.right_lt)) in
        (node_hash h a l r, rw (tree_hash_node f leaves many, el, er))
  ]
    where
      only : (xs : List Bytes) → 1 ≤ length xs → (r : Bytes) × (head? xs ≡ some r)
      only [] p = absurd (omega arith)
      only (x ∷ xs) p = (x, refl)

pub expected_sides_one : (f i n : ℕ) → n ≡ 1 → expected_sides (suc f) i n ≡ some []
unfolding expected_sides
expected_sides_one f i n e = rw ((==_iff n 1).1 e)

pub expected_sides_below :
    (f i n : ℕ)
    → n ≢ 1
    → i < split_point n
    → expected_sides (suc f) i n
      ≡ (expected_sides f i (split_point n) >>= λ sides. some (sides ++ right ∷ []))
unfolding expected_sides
expected_sides_below f i n many lt = elim (Bool-cases (n == 1)) [
  | inl one ↦ absurd (many ((==_iff _ _).0 one))
  | inr e ↦ rw (e, lt→ltb _ _ lt)
]

pub expected_sides_above :
    (f i n : ℕ)
    → n ≢ 1
    → split_point n ≤ i
    → expected_sides (suc f) i n ≡ (
        expected_sides f (i - split_point n) (n - split_point n) >>= λ sides.
        some (sides ++ left ∷ []))
unfolding expected_sides
expected_sides_above f i n many le = elim (Bool-cases (n == 1)) [
  | inl one ↦ absurd (many ((==_iff _ _).0 one))
  | inr e ↦ rw (e, le→not_ltb _ _ le)
]

abbrev pub sides_of : List PathStep → List Side
sides_of path = map (λ s. s.side) path

pub sides_below :
    (f i n m : ℕ) (path : List PathStep) (hash : String)
    → n ≢ 1
    → i < split_point n
    → m ≡ split_point n
    → expected_sides f i m ≡ some (sides_of path)
    → expected_sides (suc f) i n
      ≡ some (sides_of (path ++ record { side = right; hash = hash } ∷ []))
sides_below f i n m path hash many lt e found =
    rw (expected_sides_below f i n many lt, ← e, found, map-append)

pub sides_above :
    (f i n m : ℕ) (path : List PathStep) (hash : String)
    → n ≢ 1
    → split_point n ≤ i
    → m ≡ n - split_point n
    → expected_sides f (i - split_point n) m ≡ some (sides_of path)
    → expected_sides (suc f) i n
      ≡ some (sides_of (path ++ record { side = left; hash = hash } ∷ []))
sides_above f i n m path hash many le e found =
    rw (expected_sides_above f i n many le, ← e, found, map-append)
