-- ===== src/Integrity/Merkle/Roots.antt =====
-- Roots and audit paths over the hexadecimal digests that the program is given.
use open_audit_model.Common.{
  String, ◌≡◌, refl, sym, ap, ◌∙◌, some, List, [], ◌∷◌, map, length, all, length-map, All, ◌≤◌, inl,
  inr, Option, none, Option-cases, arith, ℕ, ◌<◌, subst, false, leb, Bool-cases, suc_ne_zero,
}
use open_audit_model.Integrity.Types.{Bytes, Hash, HashAlgorithm}
use open_audit_model.Integrity.Merkle.{
  decode_digest, leaf_hash, leaf_hashes, ok_inj, ok, tree_hash, merkle_root, Result-cases, finished,
  expected_sides, path_over, audit_path, PathStep,
}
use open_audit_model.Integrity.Merkle.Total.{tree_hash_total}
use open_audit_model.Integrity.Merkle.Routes.{path_over_total}

-- A digest of the algorithm in the accepted encoding.
abbrev pub IsDigest : HashAlgorithm → String → Type 0
IsDigest a d = (bytes : Bytes) × (decode_digest a d ≡ some bytes)

-- The bytes of a list of digests.
abbrev pub Decodes : HashAlgorithm → List String → List Bytes → Type 0
Decodes a ds bs = map (decode_digest a) ds ≡ map some bs

pub finished_ok : {A : Type 0} (o : Option A) {x : A} → finished o ≡ ok x → o ≡ some x
finished_ok none e = cc
finished_ok (some y) e = ap some (ok_inj e)

module _ (h : Hash) (a : HashAlgorithm) where
  pub leaf_hashes_total :
      (ds : List String)
      → All (IsDigest a) ds
      → (bs : List Bytes) × Decodes a ds bs × (leaf_hashes h a ds ≡ ok (map (leaf_hash h a) bs))
  unfolding leaf_hashes
  leaf_hashes_total [] all = ([], refl, refl)
  leaf_hashes_total (d ∷ ds) ((b, e), rest) =
      let (bs, es, el) = leaf_hashes_total ds rest in (b ∷ bs, cc (e, es), rw (e, el, leaf_hashes))

  pub leaf_hashes_inv :
      (ds : List String) {leaves : List Bytes}
      → leaf_hashes h a ds ≡ ok leaves
      → (bs : List Bytes) × Decodes a ds bs × (leaves ≡ map (leaf_hash h a) bs)
  unfolding leaf_hashes
  leaf_hashes_inv [] e = ([], refl, sym (ok_inj e))
  leaf_hashes_inv (d ∷ ds) e = elim (Option-cases (decode_digest a d)) [
    | inl bad ↦ cc (rw (bad, leaf_hashes) at e)
    | inr (b, good) ↦ elim (Result-cases (leaf_hashes h a ds)) [
      | inr (x, bad) ↦ cc (rw (good, bad, leaf_hashes) at e)
      | inl (ls, found) ↦
          let (bs, es, el) = leaf_hashes_inv ds found in
          (b ∷ bs, cc (good, es), cc (el, ok_inj (rw (good, found, leaf_hashes) at e)))
    ]
  ]

  pub length_of_Decodes :
      (ds : List String) (bs : List Bytes) → Decodes a ds bs → length ds ≡ length bs
  length_of_Decodes ds bs e =
      sym (length-map (decode_digest a) ds) ∙ (ap length e ∙ length-map some bs)

  -- What a root is the root of.
  pub merkle_root_inv :
      (ds : List String) {r : Bytes}
      → merkle_root h a ds ≡ ok r
      → (bs : List Bytes) × Decodes a ds bs
        × (1 ≤ length ds)
        × (tree_hash h a (length ds) (map (leaf_hash h a) bs) ≡ some r)
  unfolding merkle_root
  merkle_root_inv [] e = cc
  merkle_root_inv (d ∷ ds) {r} e = elim (Result-cases (leaf_hashes h a (d ∷ ds))) [
    | inr (x, bad) ↦ cc (rw (bad, suc_ne_zero (length ds)) at e)
    | inl (ls, found) ↦
        let (bs, es, el) = leaf_hashes_inv (d ∷ ds) found in
        let t : tree_hash h a (length (d ∷ ds)) ls ≡ some r =
          finished_ok _ (rw (found, suc_ne_zero (length ds)) at e) in
        (bs, es, omega arith, rw el at t)
  ]

  pub audit_path_inv :
      (ds : List String) (i : ℕ) {p : List PathStep}
      → audit_path h a ds i ≡ ok p
      → (bs : List Bytes) × Decodes a ds bs
        × (i < length ds)
        × (path_over h a (length ds) (map (leaf_hash h a) bs) i ≡ some p)
  unfolding audit_path
  audit_path_inv ds i {p} e = elim (Bool-cases (leb (length ds) i)) [
    | inl outside ↦ cc (rw outside at e)
    | inr inside ↦ elim (Result-cases (leaf_hashes h a ds)) [
      | inr (x, bad) ↦ cc (rw (inside, bad) at e)
      | inl (ls, found) ↦
          let (bs, es, el) = leaf_hashes_inv ds found in
          let t : path_over h a (length ds) ls i ≡ some p =
            finished_ok _ (rw (inside, found) at e) in
          (bs, es, ground arith, rw el at t)
    ]
  ]

  pub merkle_root_total :
      (ds : List String)
      → 1 ≤ length ds
      → All (IsDigest a) ds
      → (r : Bytes) × (merkle_root h a ds ≡ ok r)
  unfolding merkle_root
  merkle_root_total [] pos all = absurd (omega arith)
  merkle_root_total (d ∷ ds) pos all =
      let (bs, es, el) = leaf_hashes_total (d ∷ ds) all in
      let n : length (map (leaf_hash h a) bs) ≡ length (d ∷ ds) =
        length-map (leaf_hash h a) bs ∙ sym (length_of_Decodes (d ∷ ds) bs es) in
      let (r, er) =
        tree_hash_total h a (length (d ∷ ds)) (map (leaf_hash h a) bs) (omega arith)
          (omega arith) in
      (r, rw (suc_ne_zero (length ds), el, er))

  pub audit_path_total :
      (ds : List String) (i : ℕ)
      → i < length ds
      → All (IsDigest a) ds
      → (p : List PathStep) × (audit_path h a ds i ≡ ok p)
        × (expected_sides (length ds) i (length ds) ≡ some (map (λ s. s.side) p))
  unfolding audit_path
  audit_path_total ds i lt all =
      let (bs, es, el) = leaf_hashes_total ds all in
      let n : length (map (leaf_hash h a) bs) ≡ length ds =
        length-map (leaf_hash h a) bs ∙ sym (length_of_Decodes ds bs es) in
      let r =
        path_over_total h a (length ds) (map (leaf_hash h a) bs) i (omega arith) (omega arith) in
      let inside : leb (length ds) i ≡ false = ground arith in
      (
        r.path,
        rw (inside, el, r.found),
        subst (λ m. expected_sides (length ds) i m ≡ some (map (λ s. s.side) r.path)) n r.sides,
      )
