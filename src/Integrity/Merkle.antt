-- ===== src/Integrity/Merkle.antt =====
-- conformance/src/integrity/merkle.ts: the RFC 6962 tree over event digests, its audit paths, and
-- the recomputation of a root from a path. The hash functions are the parameter `h`. `none` of the
-- recursions on fuel is a recursion that the program does not leave; Merkle/Total and Merkle/Routes
-- have the theorems that the fuel given is enough.
pub mod Split
pub mod Total
pub mod Routes
pub mod Path
pub mod Inputs
pub mod Roots
pub mod Binding
pub mod Injective
pub mod Inclusion
pub mod Ends
use open_audit_model.Common.{
  ℕ, zero, suc, ◌-◌, ◌*◌, String, ◌≡◌, refl, ap, ◌≢◌, ◌⊎◌, inl, inr, not, ◌||◌, Option, none, some,
  List, [], ◌∷◌, ◌++◌, ltb, leb, ◌==◌, if◌then◌else◌, ◌>>=◌, length, take, drop, head?,
  utf16_length,
}
use open_audit_model.Integrity.Types.{Bytes, Hash, HashAlgorithm, digest_byte_length}
use open_audit_model.Integrity.Hex.{is_hex_digest, from_hex, to_hex}

-- `PathSide`
pub data Side : Type 0 where
  left right : Side

-- `PathStep`
pub record PathStep : Type 0 where
  pub side : Side
  pub hash : String

-- What `merkleRoot` and `auditPath` throw; `diverges` is a recursion without end.
pub data Failure : Type 0 where
  no_leaves diverges : Failure
  not_a_digest : String → Failure
  outside_tree : ℕ → ℕ → Failure

pub data Result {ℓ} (A : Type ℓ) : Type ℓ where
  ok : A → Result A
  fail : Failure → Result A

-- `while (k * 2 < n) k *= 2;`
unfoldable pub split_loop : ℕ → ℕ → ℕ → ℕ
split_loop zero k n = k
split_loop (suc f) k n = let rest = split_loop f (k * 2) n in if ltb (k * 2) n then rest else k

-- `splitPoint`
unfoldable pub split_point : ℕ → ℕ
unfolding split_loop
split_point n = split_loop n 1 n

-- `decodeDigest`
unfoldable pub decode_digest : HashAlgorithm → String → Option Bytes
unfolding is_hex_digest from_hex
decode_digest a hex =
    if not (is_hex_digest hex) || not (utf16_length hex == digest_byte_length a * 2)
    then none
    else some (from_hex hex)

-- `expectedSides`, from the leaf upward
unfoldable pub expected_sides : ℕ → ℕ → ℕ → Option (List Side)
expected_sides zero index count = none
expected_sides (suc f) index count =
    let k = split_point count in
    let below = expected_sides f index k >>= λ sides. some (sides ++ right ∷ []) in
    let above = expected_sides f (index - k) (count - k) >>= λ sides. some (sides ++ left ∷ []) in
    if count == 1 then some [] else if ltb index k then below else above

abbrev pub finished {ℓ} : {A : Type ℓ} → Option A → Result A
finished none = fail diverges
finished (some x) = ok x

abbrev pub with_leaves {ℓ} : {A : Type ℓ} → (List Bytes → Option A) → Result (List Bytes) → Result A
with_leaves f (fail e) = fail e
with_leaves f (ok leaves) = finished (f leaves)

module _ (h : Hash) (a : HashAlgorithm) where
  -- `leafHash`
  abbrev pub leaf_hash : Bytes → Bytes
  leaf_hash digest = h.digest a (0 ∷ digest)

  -- `nodeHash`
  abbrev pub node_hash : Bytes → Bytes → Bytes
  node_hash l r = h.digest a (1 ∷ (l ++ r))

  -- `treeHash`
  unfoldable pub tree_hash : ℕ → List Bytes → Option Bytes
  tree_hash zero leaves = none
  tree_hash (suc f) leaves =
      let k = split_point (length leaves) in
      let node =
        (tree_hash f (take k leaves) >>= λ l.
        tree_hash f (drop k leaves) >>= λ r. some (node_hash l r)) in
      if length leaves == 1 then head? leaves else node

  -- `digests.map((digest) => leafHash(algorithm, mustDecode(algorithm, digest)))`
  unfoldable pub leaf_hashes : List String → Result (List Bytes)
  leaf_hashes [] = ok []
  leaf_hashes (d ∷ ds) = elim (decode_digest a d) [
    | none ↦ fail (not_a_digest d)
    | some bytes ↦ elim (leaf_hashes ds) [
      | ok leaves ↦ ok (leaf_hash bytes ∷ leaves)
      | fail e ↦ fail e
    ]
  ]

  -- `merkleRoot`
  unfoldable pub merkle_root : List String → Result Bytes
  merkle_root digests =
      if length digests == 0
      then fail no_leaves
      else with_leaves (tree_hash (length digests)) (leaf_hashes digests)

  -- `pathOver`
  unfoldable pub path_over : ℕ → List Bytes → ℕ → Option (List PathStep)
  path_over zero leaves index = none
  path_over (suc f) leaves index =
      let k = split_point (length leaves) in
      let below =
        (path_over f (take k leaves) index >>= λ path. tree_hash f (drop k leaves) >>= λ other.
        some (path ++ record { side = right; hash = to_hex other } ∷ [])) in
      let above =
        (path_over f (drop k leaves) (index - k) >>= λ path.
        tree_hash f (take k leaves) >>= λ other.
        some (path ++ record { side = left; hash = to_hex other } ∷ [])) in
      if length leaves == 1 then some [] else if ltb index k then below else above

  -- `auditPath`; an index is a natural number here, so two of the three tests are the type's
  unfoldable pub audit_path : List String → ℕ → Result (List PathStep)
  audit_path digests index =
      if leb (length digests) index
      then fail (outside_tree index (length digests))
      else with_leaves (λ leaves. path_over (length digests) leaves index) (leaf_hashes digests)

  -- one round of the loop of `rootFromPath`
  abbrev pub climb_step : Side → Bytes → Bytes → Bytes
  climb_step left sibling current = node_hash sibling current
  climb_step right sibling current = node_hash current sibling

  -- the loop of `rootFromPath`
  unfoldable pub climb : Bytes → List PathStep → Option Bytes
  climb current [] = some current
  climb current (step ∷ path) = elim (decode_digest a step.hash) [
    | none ↦ none
    | some sibling ↦ climb (climb_step step.side sibling current) path
  ]

  -- `rootFromPath`
  unfoldable pub root_from_path : Bytes → List PathStep → Option Bytes
  root_from_path leaf_digest path = climb (leaf_hash leaf_digest) path

pub Result-cases {ℓ} :
    {A : Type ℓ} (r : Result A) → ((x : A) × (r ≡ ok x)) ⊎ ((e : Failure) × (r ≡ fail e))
Result-cases (ok x) = inl (x, refl)
Result-cases (fail e) = inr (e, refl)

pub ok-ne-fail {ℓ} : {A : Type ℓ} {x : A} {e : Failure} → ok x ≢ fail e
ok-ne-fail p = cc

pub ok_inj {ℓ} : {A : Type ℓ} {x y : A} → ok x ≡ ok y → x ≡ y
ok_inj {x} e = ap (λ r. elim r [ ok v ↦ v | fail _ ↦ x ]) e
