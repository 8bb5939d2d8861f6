-- ===== src/Tests/Trees.antt =====
-- A tree of three digests, and a proof of inclusion in it.
use open_audit_model.Common.{
  String, List, [], ◌∷◌, ◌≡◌, refl, ◌⊎◌, some, map, arith, ◌>>=◌, length, get_elem?, All, ◌≤◌, ◌<◌,
}
use open_audit_model.Integrity.Types.{Bytes, sha256, Collision}
use open_audit_model.Integrity.Hex.{hex_pairs, is_hex_digest, from_hex}
use open_audit_model.Integrity.Merkle.{
  merkle_root, audit_path, PathStep, split_loop, split_point, decode_digest, tree_hash, leaf_hashes,
  expected_sides, climb, root_from_path, left, ok, no_leaves, outside_tree, fail,
}
use open_audit_model.Integrity.Merkle.Split.{split_point-IsSplit, IsSplit}
use open_audit_model.Integrity.Merkle.Roots.{IsDigest}
use open_audit_model.Integrity.Merkle.Inputs.{PathInput, RootInput}
use open_audit_model.Integrity.Merkle.Inclusion.{
  root_from_path-audit_path, inclusion_binding, merkle_root_binding,
}
use open_audit_model.Integrity.Merkle.Ends.{first_refused, EndsAs, merkle_root-EndsAs}
use open_audit_model.Tests.{checksum, repeat}

abbrev digests : List String
digests =
    "0101010101010101010101010101010101010101010101010101010101010101"
    ∷ "0202020202020202020202020202020202020202020202020202020202020202"
    ∷ "0303030303030303030303030303030303030303030303030303030303030303" ∷ []

abbrev root : Bytes
root = repeat 32 33

abbrev leaf : Bytes
leaf = repeat 32 3

abbrev path : List PathStep
path =
    record {
      side = left;
      hash = "0101010101010101010101010101010101010101010101010101010101010101";
    }
    ∷ []

has_root : merkle_root checksum sha256 digests ≡ ok root
unfolding merkle_root leaf_hashes decode_digest is_hex_digest hex_pairs from_hex tree_hash
    split_point split_loop
has_root = refl

climbs : root_from_path checksum sha256 leaf path ≡ some root
unfolding root_from_path climb decode_digest is_hex_digest hex_pairs from_hex
climbs = refl

has_sides : expected_sides (length digests) 2 (length digests) ≡ some (map (λ s. s.side) path)
unfolding expected_sides split_point split_loop
has_sides = refl

decoded : All (IsDigest sha256) digests
unfolding decode_digest is_hex_digest hex_pairs from_hex
decoded = ((repeat 32 1, refl), ((repeat 32 2, refl), ((repeat 32 3, refl), tt)))

inclusion_binding_example :
    ((get_elem? digests 2 >>= decode_digest sha256) ≡ some leaf)
    ⊎ Collision checksum sha256
        (PathInput checksum sha256 leaf path)
        (RootInput checksum sha256 digests)
inclusion_binding_example =
    inclusion_binding checksum sha256 digests 2 leaf root path has_root (omega arith) has_sides
      climbs

root_from_path-audit_path_example :
    (path : List PathStep) × (root leaf : Bytes) × (audit_path checksum sha256 digests 2 ≡ ok path)
    × (merkle_root checksum sha256 digests ≡ ok root)
    × ((get_elem? digests 2 >>= decode_digest sha256) ≡ some leaf)
    × (expected_sides (length digests) 2 (length digests) ≡ some (map (λ s. s.side) path))
    × (root_from_path checksum sha256 leaf path ≡ some root)
root_from_path-audit_path_example =
    root_from_path-audit_path checksum sha256 digests 2 (omega arith) decoded

-- Other digests, under whose tree the checksum is the same.
abbrev swapped : List String
swapped =
    "0202020202020202020202020202020202020202020202020202020202020202"
    ∷ "0101010101010101010101010101010101010101010101010101010101010101"
    ∷ "0303030303030303030303030303030303030303030303030303030303030303" ∷ []

swapped-root : merkle_root checksum sha256 swapped ≡ ok root
unfolding merkle_root leaf_hashes decode_digest is_hex_digest hex_pairs from_hex tree_hash
    split_point split_loop
swapped-root = refl

merkle_root_binding_example :
    (digests ≡ swapped)
    ⊎ Collision checksum sha256
        (RootInput checksum sha256 digests)
        (RootInput checksum sha256 swapped)
merkle_root_binding_example =
    merkle_root_binding checksum sha256 digests swapped root has_root swapped-root

split_point-IsSplit_example : IsSplit 6 (split_point 6)
split_point-IsSplit_example = split_point-IsSplit 6 (omega arith)

-- A list whose second text is not a digest.
abbrev broken : List String
broken = "0101010101010101010101010101010101010101010101010101010101010101" ∷ "02" ∷ []

merkle_root-EndsAs_example :
    (merkle_root checksum sha256 [] ≡ fail no_leaves)
    × (0 < length broken
        → EndsAs (first_refused sha256 broken) (merkle_root checksum sha256 broken))
    × (length broken ≤ 0
        → audit_path checksum sha256 broken 0 ≡ fail (outside_tree 0 (length broken)))
    × (0 < length broken
        → EndsAs (first_refused sha256 broken) (audit_path checksum sha256 broken 0))
merkle_root-EndsAs_example = merkle_root-EndsAs checksum sha256 broken 0
