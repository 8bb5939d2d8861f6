-- ===== src/Integrity/Merkle/Path.antt =====
-- Audit paths recompute the root: `auditPath` followed by `rootFromPath` is `merkleRoot`.
use text.Mathlib.TextLemmas.{cons≢nil}
use native.Mathlib.Decide.{ℕ_discrete, dec_lt}
use open_audit_model.Common.{
  ℕ, zero, suc, ◌*◌, ◌≤◌, String, ◌≡◌, refl, subst, inl, inr, false, some, List, [], ◌∷◌, ◌++◌,
  arith, ==_iff, Option-cases, ◌>>=◌, length, get_elem?, head?, All, ◌===◌, utf16_length, some_inj,
  Bool-cases, ===→≡, ◌-◌, sym, ap, ◌∙◌, take, drop, get_elem?-take, get_elem?-drop, All-take,
  All-drop, get_elem?-lt,
}
use open_audit_model.Integrity.Types.{Bytes, IsByte, Hash, HashAlgorithm, digest_byte_length}
use open_audit_model.Integrity.Hex.{to_hex, is_hex_digest}
use open_audit_model.Integrity.Hex.RoundTrip.{
  hex_pairs-to_hex, from_hex-to_hex, utf16_length-to_hex,
}
use open_audit_model.Integrity.Merkle.{
  decode_digest, tree_hash, path_over, climb_step, climb, Side, PathStep, split_point, left, right,
}
use open_audit_model.Integrity.Merkle.Total.{tree_hash_leaf}
use open_audit_model.Integrity.Merkle.Routes.{
  path_over_one, tree_hash_node_inv, path_below_inv, path_above_inv,
}

-- What a hash function returns.
abbrev pub IsOutput : HashAlgorithm → Bytes → Type 0
IsOutput a bs = (length bs ≡ digest_byte_length a) × All IsByte bs

not-empty-to_hex : (bs : Bytes) → 1 ≤ length bs → (to_hex bs === "") ≡ false
unfolding to_hex
not-empty-to_hex [] h = absurd (omega arith)
not-empty-to_hex (b ∷ bs) h = elim (Bool-cases (to_hex (b ∷ bs) === "")) [
  | inl same ↦ absurd (cons≢nil (===→≡ (to_hex (b ∷ bs)) "" same))
  | inr ne ↦ ne
]

digest_byte_length_pos : (a : HashAlgorithm) → 1 ≤ digest_byte_length a
digest_byte_length_pos a = ground arith

-- A hash that is written in hexadecimal is read back.
pub decode_digest-to_hex :
    (a : HashAlgorithm) (bs : Bytes) → IsOutput a bs → decode_digest a (to_hex bs) ≡ some bs
unfolding decode_digest is_hex_digest
decode_digest-to_hex a bs (len, bytes) =
    let pos : 1 ≤ length bs = omega (arith, digest_byte_length_pos a) in
    let n =
      (==_iff (utf16_length (to_hex bs)) (digest_byte_length a * 2)).1
        (omega (arith, utf16_length-to_hex bs bytes)) in
    rw (not-empty-to_hex bs pos, hex_pairs-to_hex bs bytes, n, from_hex-to_hex bs bytes)

module _ (h : Hash) (a : HashAlgorithm) where
  pub digest-IsOutput : (bs : Bytes) → IsOutput a (h.digest a bs)
  digest-IsOutput bs = (h.length-digest a bs, h.digest-IsByte a bs)

  pub tree_hash-IsOutput :
      (f : ℕ) (leaves : List Bytes) {r : Bytes}
      → All (IsOutput a) leaves
      → tree_hash h a f leaves ≡ some r
      → IsOutput a r
  unfolding tree_hash
  tree_hash-IsOutput zero leaves out e = cc
  tree_hash-IsOutput (suc f) leaves out e = elim (ℕ_discrete (length leaves) 1) [
    | yes one ↦ only leaves out (rw (tree_hash_leaf h a f leaves one) at e)
    | no many ↦
        let (l, r', el, er, same) = tree_hash_node_inv h a f leaves many e in
        subst (IsOutput a) same (digest-IsOutput (1 ∷ (l ++ r')))
  ]
    where
      only : (xs : List Bytes) {r : Bytes} → All (IsOutput a) xs → head? xs ≡ some r → IsOutput a r
      only [] o p = cc
      only (x ∷ xs) o p = subst (IsOutput a) (some_inj p) o.0

  pub climb-append :
      (x : Bytes) (path : List PathStep) (s : PathStep)
      → climb h a x (path ++ s ∷ []) ≡ (climb h a x path >>= λ c. climb h a c (s ∷ []))
  unfolding climb
  climb-append x [] s = refl
  climb-append x (p ∷ path) s = elim (Option-cases (decode_digest a p.hash)) [
    | inl bad ↦ rw (bad, climb)
    | inr (b, good) ↦ rw (good, climb) (climb-append (climb_step h a p.side b x) path s)
  ]

  pub climb_one :
      (x b : Bytes) (side : Side) (hash : String)
      → decode_digest a hash ≡ some b
      → climb h a x (record { side = side; hash = hash } ∷ []) ≡ some (climb_step h a side b x)
  unfolding climb
  climb_one x b side hash e = rw (e, climb)

  -- One more step at the top of a path, to a sibling that a hash function returned.
  climb_last :
      (x c y : Bytes) (path : List PathStep) (side : Side)
      → IsOutput a y
      → climb h a x path ≡ some c
      → climb h a x (path ++ record { side = side; hash = to_hex y } ∷ [])
        ≡ some (climb_step h a side y c)
  climb_last x c y path side out e =
      climb-append x path (record { side = side; hash = to_hex y })
      ∙ (ap (λ o. o >>= λ c'. climb h a c' (record { side = side; hash = to_hex y } ∷ [])) e
          ∙ climb_one c y side (to_hex y) (decode_digest-to_hex a y out))

  climb_only_leaf :
      (xs : List Bytes) (j : ℕ) {v w : Bytes} {q : List PathStep}
      → get_elem? xs j ≡ some v
      → some [] ≡ some q
      → length xs ≡ 1
      → head? xs ≡ some w
      → climb h a v q ≡ some w
  unfolding climb
  climb_only_leaf [] j e n o t = cc
  climb_only_leaf (u ∷ us) zero e n o t = rw (← some_inj n) (sym e ∙ t)
  climb_only_leaf (u ∷ us) (suc j) e n o t = absurd (omega (arith, get_elem?-lt us j e))

  pub climb-path_over :
      (f : ℕ) (leaves : List Bytes) (i : ℕ) {x r : Bytes} {path : List PathStep}
      → All (IsOutput a) leaves
      → get_elem? leaves i ≡ some x
      → path_over h a f leaves i ≡ some path
      → tree_hash h a f leaves ≡ some r
      → climb h a x path ≡ some r
  unfolding tree_hash
  climb-path_over zero leaves i out here found tree = cc
  climb-path_over (suc f) leaves i {x} {r} {path} out here found tree =
      elim (ℕ_discrete (length leaves) 1) [
        | yes one ↦
            climb_only_leaf leaves i here (sym (path_over_one h a f leaves i one) ∙ found) one
              (sym (tree_hash_leaf h a f leaves one) ∙ tree)
        | no many ↦
            let k = split_point (length leaves) in
            let (l, y, el, er, same) = tree_hash_node_inv h a f leaves many tree in
            elim (dec_lt i k) [
              | yes low ↦
                  let (p, z, ep, ez, e) = path_below_inv h a f leaves i many low found in
                  let out' =
                    tree_hash-IsOutput f (drop k leaves) (All-drop (IsOutput a) k leaves out) er in
                  let ih =
                    climb-path_over f (take k leaves) i (All-take (IsOutput a) k leaves out)
                      (get_elem?-take k i leaves low ∙ here) ep el in
                  let zy : z ≡ y = some_inj (sym ez ∙ er) in
                  rw (← e, zy) (climb_last x l y p right out' ih ∙ ap some same)
              | no high ↦
                  let high' : k ≤ i = omega arith in
                  let (p, z, ep, ez, e) = path_above_inv h a f leaves i many high' found in
                  let out' =
                    tree_hash-IsOutput f (take k leaves) (All-take (IsOutput a) k leaves out) el in
                  let ih =
                    climb-path_over f (drop k leaves) (i - k) (All-drop (IsOutput a) k leaves out)
                      (get_elem?-drop k i leaves high' ∙ here) ep er in
                  let zl : z ≡ l = some_inj (sym ez ∙ el) in
                  rw (← e, zl) (climb_last x y l p left out' ih ∙ ap some same)
            ]
      ]
