-- ===== src/Integrity/Merkle/Routes.antt =====
-- Audit paths are found, with the expected sides, and how trees and paths are made of their parts.
use open_audit_model.Common.{
  ℕ, suc, ◌-◌, ◌≤◌, ◌<◌, ◌≡◌, sym, ◌∙◌, ◌≢◌, inl, inr, some, List, [], ◌∷◌, ◌++◌, map, arith, ◌==◌,
  lt→ltb, le→not_ltb, ==_iff, Bool-cases, ◌>>=◌, >>=-eq-some, length, take, drop, some_inj, zero,
}
use open_audit_model.Integrity.Types.{Bytes, HashAlgorithm, Hash}
use native.Mathlib.Decide.{ℕ_discrete, dec_lt}
use open_audit_model.Integrity.Hex.{to_hex}
use open_audit_model.Integrity.Merkle.{
  split_point, expected_sides, node_hash, tree_hash, path_over, left, right, PathStep,
}
use open_audit_model.Integrity.Merkle.Split.{}
use open_audit_model.Integrity.Merkle.Total.{
  Parts-of, tree_hash_node, tree_hash_total, expected_sides_one, sides_below, sides_above,
}

module _ (h : Hash) (a : HashAlgorithm) where
  pub path_over_one :
      (f : ℕ) (leaves : List Bytes) (i : ℕ)
      → length leaves ≡ 1
      → path_over h a (suc f) leaves i ≡ some []
  unfolding path_over
  path_over_one f leaves i e = rw ((==_iff (length leaves) 1).1 e)

  pub path_over_below :
      (f : ℕ) (leaves : List Bytes) (i : ℕ)
      → length leaves ≢ 1
      → i < split_point (length leaves)
      → path_over h a (suc f) leaves i ≡ (
          path_over h a f (take (split_point (length leaves)) leaves) i >>= λ path.
          tree_hash h a f (drop (split_point (length leaves)) leaves) >>= λ other.
          some (path ++ record { side = right; hash = to_hex other } ∷ []))
  unfolding path_over
  path_over_below f leaves i many lt = elim (Bool-cases (length leaves == 1)) [
    | inl one ↦ absurd (many ((==_iff _ _).0 one))
    | inr e ↦ rw (e, lt→ltb _ _ lt)
  ]

  pub path_over_above :
      (f : ℕ) (leaves : List Bytes) (i : ℕ)
      → length leaves ≢ 1
      → split_point (length leaves) ≤ i
      → path_over h a (suc f) leaves i ≡ (
          path_over h a f
            (drop (split_point (length leaves)) leaves)
            (i - split_point (length leaves))
          >>= λ path. tree_hash h a f (take (split_point (length leaves)) leaves) >>= λ other.
              some (path ++ record { side = left; hash = to_hex other } ∷ []))
  unfolding path_over
  path_over_above f leaves i many le = elim (Bool-cases (length leaves == 1)) [
    | inl one ↦ absurd (many ((==_iff _ _).0 one))
    | inr e ↦ rw (e, le→not_ltb _ _ le)
  ]

  -- The sides of a path, where they are the expected ones.
  pub record Route (f : ℕ) (leaves : List Bytes) (i : ℕ) : Type 0 where
    pub path : List PathStep
    pub found : path_over h a f leaves i ≡ some path
    pub sides : expected_sides f i (length leaves) ≡ some (map (λ s. s.side) path)

  pub path_over_total :
      (f : ℕ) (leaves : List Bytes) (i : ℕ)
      → i < length leaves
      → length leaves ≤ f
      → Route f leaves i
  path_over_total zero leaves i lt le = absurd (omega arith)
  path_over_total (suc f) leaves i lt le = elim (ℕ_discrete (length leaves) 1) [
    | yes one ↦ record {
      path = [];
      found = path_over_one f leaves i one;
      sides = expected_sides_one f i (length leaves) one;
    }
    | no many ↦
        let p = Parts-of leaves (omega arith) many in
        let k = split_point (length leaves) in
        elim (dec_lt i k) [
          | yes low ↦
              let r =
                path_over_total f (take k leaves) i (omega (arith, p.left_length))
                  (omega (arith, p.left_lt)) in
              let (o, eo) =
                tree_hash_total h a f (drop k leaves) p.right_pos (omega (arith, p.right_lt)) in
              record {
                path = r.path ++ record { side = right; hash = to_hex o } ∷ [];
                found = rw (path_over_below f leaves i many low, r.found, eo);
                sides = sides_below f i (length leaves) _ r.path _ many low p.left_length r.sides;
              }
          | no high ↦
              let le' : k ≤ i = omega arith in
              let r =
                path_over_total f (drop k leaves) (i - k) (omega (arith, p.right_length))
                  (omega (arith, p.right_lt)) in
              let (o, eo) =
                tree_hash_total h a f (take k leaves) p.left_pos (omega (arith, p.left_lt)) in
              record {
                path = r.path ++ record { side = left; hash = to_hex o } ∷ [];
                found = rw (path_over_above f leaves i many le', r.found, eo);
                sides = sides_above f i (length leaves) _ r.path _ many le' p.right_length r.sides;
              }
        ]
  ]

  pub tree_hash_node_inv :
      (f : ℕ) (leaves : List Bytes) {r : Bytes}
      → length leaves ≢ 1
      → tree_hash h a (suc f) leaves ≡ some r
      → (x y : Bytes) × (tree_hash h a f (take (split_point (length leaves)) leaves) ≡ some x)
        × (tree_hash h a f (drop (split_point (length leaves)) leaves) ≡ some y)
        × (node_hash h a x y ≡ r)
  tree_hash_node_inv f leaves many e =
      let k = split_point (length leaves) in
      let (x, ex, e') =
        >>=-eq-some (tree_hash h a f (take k leaves)) _
          (sym (tree_hash_node h a f leaves many) ∙ e) in
      let (y, ey, e'') = >>=-eq-some (tree_hash h a f (drop k leaves)) _ e' in
      (x, y, ex, ey, some_inj e'')

  pub path_below_inv :
      (f : ℕ) (leaves : List Bytes) (i : ℕ) {path : List PathStep}
      → length leaves ≢ 1
      → i < split_point (length leaves)
      → path_over h a (suc f) leaves i ≡ some path
      → (p : List PathStep) × (y : Bytes) × (path_over h a f
            (take (split_point (length leaves)) leaves)
            i
          ≡ some p)
        × (tree_hash h a f (drop (split_point (length leaves)) leaves) ≡ some y)
        × (p ++ record { side = right; hash = to_hex y } ∷ [] ≡ path)
  path_below_inv f leaves i many low e =
      let k = split_point (length leaves) in
      let (p, ep, e') =
        >>=-eq-some (path_over h a f (take k leaves) i) _
          (sym (path_over_below f leaves i many low) ∙ e) in
      let (y, ey, e'') = >>=-eq-some (tree_hash h a f (drop k leaves)) _ e' in
      (p, y, ep, ey, some_inj e'')

  pub path_above_inv :
      (f : ℕ) (leaves : List Bytes) (i : ℕ) {path : List PathStep}
      → length leaves ≢ 1
      → split_point (length leaves) ≤ i
      → path_over h a (suc f) leaves i ≡ some path
      → (p : List PathStep) × (y : Bytes) × (path_over h a f
            (drop (split_point (length leaves)) leaves)
            (i - split_point (length leaves))
          ≡ some p)
        × (tree_hash h a f (take (split_point (length leaves)) leaves) ≡ some y)
        × (p ++ record { side = left; hash = to_hex y } ∷ [] ≡ path)
  path_above_inv f leaves i many high e =
      let k = split_point (length leaves) in
      let (p, ep, e') =
        >>=-eq-some (path_over h a f (drop k leaves) (i - k)) _
          (sym (path_over_above f leaves i many high) ∙ e) in
      let (y, ey, e'') = >>=-eq-some (tree_hash h a f (take k leaves)) _ e' in
      (p, y, ep, ey, some_inj e'')
