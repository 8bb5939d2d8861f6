-- ===== src/Integrity/Merkle/Ends.antt =====
-- How `merkleRoot` and `auditPath` end, on texts that need not be digests.
use open_audit_model.Common.{
  ℕ, suc, ◌≤◌, ◌<◌, String, ◌≡◌, refl, ap, inl, inr, Option, none, some, List, [], ◌∷◌, arith,
  le→leb, Option-cases, length, sym, subst, false, leb, ◌==◌,
}
use open_audit_model.Integrity.Types.{Bytes, HashAlgorithm, Hash}
use open_audit_model.Integrity.Merkle.{
  decode_digest, leaf_hash, leaf_hashes, merkle_root, audit_path, no_leaves, not_a_digest,
  outside_tree, Result, ok, fail,
}
use open_audit_model.Integrity.Merkle.Total.{tree_hash_total}
use open_audit_model.Integrity.Merkle.Routes.{path_over_total}

-- The first text that is not a digest of the algorithm.
abbrev pub first_refused : HashAlgorithm → List String → Option String
first_refused a [] = none
first_refused a (d ∷ ds) = elim (decode_digest a d) [
  | none ↦ some d
  | some bytes ↦ first_refused a ds
]

-- A value, where no text is refused, and a failure that names the one that is.
abbrev pub EndsAs {ℓ} : {A : Type ℓ} → Option String → Result A → Type ℓ
EndsAs {A} none r = (x : A) × (r ≡ ok x)
EndsAs (some d) r = r ≡ fail (not_a_digest d)

module _ (h : Hash) (a : HashAlgorithm) where
  abbrev LeavesEnd : List String → Option String → Type 0
  LeavesEnd ds none =
      (leaves : List Bytes) × (leaf_hashes h a ds ≡ ok leaves) × (length leaves ≡ length ds)
  LeavesEnd ds (some d) = leaf_hashes h a ds ≡ fail (not_a_digest d)

  one_more :
      (d : String) (ds : List String) (bytes : Bytes) (o : Option String)
      → decode_digest a d ≡ some bytes
      → LeavesEnd ds o
      → LeavesEnd (d ∷ ds) o
  unfolding leaf_hashes
  one_more d ds bytes none e (leaves, l, n) =
      (leaf_hash h a bytes ∷ leaves, rw (e, leaf_hashes, l) refl, ap suc n)
  one_more d ds bytes (some x) e l = rw (e, leaf_hashes, l) refl

  leaves_end : (ds : List String) → LeavesEnd ds (first_refused a ds)
  unfolding leaf_hashes
  leaves_end [] = ([], refl, refl)
  leaves_end (d ∷ ds) = elim (Option-cases (decode_digest a d)) [
    | inl bad ↦
        let refused : first_refused a (d ∷ ds) ≡ some d = rw (first_refused, bad) refl in
        subst (LeavesEnd (d ∷ ds)) (sym refused) (rw (bad, leaf_hashes) refl)
    | inr (bytes, good) ↦
        let same : first_refused a (d ∷ ds) ≡ first_refused a ds = rw (first_refused, good) refl in
        subst (LeavesEnd (d ∷ ds)) (sym same)
          (one_more d ds bytes (first_refused a ds) good (leaves_end ds))
  ]

  not_empty : (n : ℕ) → 0 < n → (n == 0) ≡ false
  not_empty n lt = ground arith

  inside : (n i : ℕ) → i < n → leb n i ≡ false
  inside n i lt = ground arith

  root_ends :
      (ds : List String) (o : Option String)
      → 0 < length ds
      → LeavesEnd ds o
      → EndsAs o (merkle_root h a ds)
  unfolding merkle_root
  root_ends ds none pos (leaves, l, n) =
      let (r, e) = tree_hash_total h a (length ds) leaves (omega (arith, n)) (omega (arith, n)) in
      (r, rw (not_empty (length ds) pos, l, e) refl)
  root_ends ds (some x) pos l = rw (not_empty (length ds) pos, l) refl

  path_ends :
      (ds : List String) (index : ℕ) (o : Option String)
      → index < length ds
      → LeavesEnd ds o
      → EndsAs o (audit_path h a ds index)
  unfolding audit_path
  path_ends ds index none lt (leaves, l, n) =
      let r = path_over_total h a (length ds) leaves index (omega (arith, n)) (omega (arith, n)) in
      (r.path, rw (inside (length ds) index lt, l, r.found) refl)
  path_ends ds index (some x) lt l = rw (inside (length ds) index lt, l) refl

  -- Whatever texts are given, `merkleRoot` and `auditPath` end: no texts have no root, and an index that
  -- is not below their number no path; otherwise the first text that is not a digest is refused by name,
  -- and where there is none, both return.
  pub merkle_root-EndsAs :
      (ds : List String) (index : ℕ)
      → (merkle_root h a [] ≡ fail no_leaves)
        × (0 < length ds → EndsAs (first_refused a ds) (merkle_root h a ds))
        × (length ds ≤ index → audit_path h a ds index ≡ fail (outside_tree index (length ds)))
        × (index < length ds → EndsAs (first_refused a ds) (audit_path h a ds index))
  unfolding merkle_root audit_path
  merkle_root-EndsAs ds index = (
    refl,
    λ pos. root_ends ds (first_refused a ds) pos (leaves_end ds),
    λ le. rw (le→leb (length ds) index le) refl,
    λ lt. path_ends ds index (first_refused a ds) lt (leaves_end ds),
  )
