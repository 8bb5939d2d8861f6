-- ===== src/Tests/Proofs.antt =====
-- An inclusion proof of a sealed event in a tree of two digests.
use open_audit_model.Common.{String, ◌≡◌, refl, none, some, List, [], ◌∷◌, utf8}
use open_audit_model.Json.{Value, field, end, obj, arr, cons, nil, str, num, nat}
use open_audit_model.Integrity.Types.{sha256}
use open_audit_model.Integrity.Hex.{
  hex_pairs, is_hex_digest, from_hex, to_hex, bytes_equal, digests_equal,
}
use open_audit_model.Integrity.Canonicalize.{assert_json_value, canonicalize}
use open_audit_model.Integrity.Digest.{build_digest_input, digest_with, calculate_digest}
use open_audit_model.Integrity.Merkle.{
  split_loop, split_point, decode_digest, expected_sides, tree_hash, leaf_hashes, merkle_root,
  climb, root_from_path, left, ok,
}
use open_audit_model.Integrity.Signature.Document.{check_declared_document_signature}
use open_audit_model.Integrity.Event.{check_signature, verify_event_integrity}
use open_audit_model.Integrity.Proof.{
  judge, verify_proof, proof_verified, ProofDocument, ProofReport,
}
use open_audit_model.Integrity.Proof.Included.{verify_proof-IsIncluded, IsIncluded}
use open_audit_model.Tests.{repeat, engine, accepts_all}
use open_audit_model.Tests.Events.{declared, sealed_event}

abbrev other_digest : String
other_digest = "0101010101010101010101010101010101010101010101010101010101010101"

abbrev sibling : String
sibling = "2020202020202020202020202020202020202020202020202020202020202020"

abbrev root_hash : String
root_hash = "0101010101010101010101010101010101010101010101010101010101010101"

abbrev leaves : List String
leaves = other_digest ∷ declared ∷ []

abbrev proof_document : Value
proof_document = obj (
    field "hashAlgorithm" (str "SHA-256") (
      field "leaf" (obj (field "hash" (str declared) (field "index" (num (nat 1)) end))) (
        field "root" (obj (field "hash" (str root_hash) (field "leafCount" (num (nat 2)) end))) (
          field "path"
            (arr (cons (obj (field "side" (str "left") (field "hash" (str sibling) end))) nil))
            end))))

abbrev read : ProofDocument
read = record {
  hash_algorithm = "SHA-256";
  leaf_hash = declared;
  leaf_index = 1;
  root_hash = root_hash;
  leaf_count = 2;
  path = record { side = left; hash = sibling } ∷ [];
}

abbrev the_proof_report : ProofReport
the_proof_report = judge engine accepts_all accepts_all none sealed_event "a" read [] (some sha256)

proof_reported :
    verify_proof engine accepts_all accepts_all none sealed_event "a" proof_document
    ≡ some the_proof_report
unfolding verify_proof check_declared_document_signature
proof_reported = refl

proof_holds : the_proof_report.outcome ≡ proof_verified
unfolding verify_event_integrity calculate_digest digest_with build_digest_input canonicalize
    assert_json_value to_hex utf8 digests_equal is_hex_digest hex_pairs from_hex bytes_equal
    check_signature decode_digest expected_sides split_point split_loop root_from_path climb
proof_holds = refl

leaves_root : merkle_root engine.hash sha256 leaves ≡ ok (repeat 32 1)
unfolding merkle_root leaf_hashes decode_digest is_hex_digest hex_pairs from_hex tree_hash
    split_point split_loop
leaves_root = refl

root_decodes : decode_digest sha256 root_hash ≡ some (repeat 32 1)
unfolding decode_digest is_hex_digest hex_pairs from_hex
root_decodes = refl

verify_proof-IsIncluded_example :
    (accepts_all proof_document ≡ [])
    × IsIncluded engine accepts_all accepts_all none sealed_event "a" read sha256 leaves
verify_proof-IsIncluded_example =
    verify_proof-IsIncluded engine accepts_all accepts_all none sealed_event "a" proof_document
      the_proof_report read sha256 leaves (repeat 32 1) proof_reported proof_holds refl refl refl
      leaves_root root_decodes
