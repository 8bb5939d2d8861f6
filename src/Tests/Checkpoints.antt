-- ===== src/Tests/Checkpoints.antt =====
-- A checkpoint of the archive with one event, and a signature.
use open_audit_model.Common.{String, ◌≡◌, refl, true, Option, none, some, List, [], ◌∷◌, sort, utf8}
use open_audit_model.Json.{Value, field, end, obj, str, num, nat}
use open_audit_model.Integrity.Hex.{
  hex_pairs, is_hex_digest, from_hex, to_hex, bytes_equal, digests_equal,
}
use open_audit_model.Integrity.Canonicalize.{assert_json_value, canonicalize}
use open_audit_model.Integrity.Digest.{build_digest_input, digest_with, calculate_digest}
use open_audit_model.Integrity.Signature.{PublicKey}
use open_audit_model.Integrity.Signature.Document.{check_declared_document_signature}
use open_audit_model.Integrity.Event.{check_signature, verify_event_integrity}
use open_audit_model.Integrity.Chain.{ChainResult}
use open_audit_model.Integrity.Chain.Verify.{verify_one_chain}
use open_audit_model.Integrity.Chain.Intake.{add_chain_event, finish_chains, verify_chains}
use open_audit_model.Integrity.Checkpoint.{CheckpointClaim, IndexedEvent}
use open_audit_model.Integrity.Checkpoint.Compare.{
  compare_claim, compare_archive, verify_checkpoint, claim_agrees, CheckpointOutcome, agrees,
  CheckpointReport,
}
use open_audit_model.Integrity.Checkpoint.Agreement.{compare_claim-Agrees_iff, Agrees}
use open_audit_model.Integrity.Checkpoint.Report.{verify_checkpoint-agrees, Established}
use open_audit_model.Tests.Chains.{no_collation, inputs}
use open_audit_model.Tests.{repeat, engine, accepts_all}

abbrev head_hash : String
head_hash = "8080808080808080808080808080808080808080808080808080808080808080"

abbrev document : Value
document = obj (
    field "chainId" (str "log") (
      field "head" (obj (field "sequence" (num (nat 1)) (field "hash" (str head_hash) end))) (
        field "eventCount" (num (nat 1))
          (field "hashAlgorithm" (str "SHA-256") (field "canonicalization" (str "RFC8785") end)))))

abbrev outcome : Option CheckpointReport → Option CheckpointOutcome
outcome none = none
outcome (some report) = some report.outcome

abbrev claim : CheckpointClaim
claim = record {
  chain_id = "log";
  head_sequence = 1;
  head_hash = head_hash;
  event_count = some (nat 1);
}

abbrev indexed : List IndexedEvent
indexed =
    record {
      label = "a";
      sequence = 1;
      hash = some head_hash;
      hash_algorithm = some "SHA-256";
      canonicalization = some "RFC8785";
    }
    ∷ []

abbrev intact_chain : ChainResult
intact_chain = record {
  chain_id = "log";
  event_count = 1;
  first_sequence = some 1;
  last_sequence = some 1;
  head_hash = some head_hash;
  intact = true;
  checks = [];
  findings = [];
  notes = [];
}

claim_agrees_here :
    (compare_claim claim indexed 0 intact_chain "SHA-256" "RFC8785").status ≡ claim_agrees
unfolding compare_claim digests_equal is_hex_digest hex_pairs from_hex bytes_equal
claim_agrees_here = refl

compare_claim-Agrees_iff_example : Agrees claim indexed 0 intact_chain "SHA-256" "RFC8785"
compare_claim-Agrees_iff_example =
    (compare_claim-Agrees_iff claim indexed 0 intact_chain "SHA-256" "RFC8785").0 claim_agrees_here

abbrev the_report : CheckpointReport
the_report =
    compare_archive no_collation engine inputs accepts_all accepts_all none none
      (record { hash_algorithm = "SHA-256"; canonicalization = "RFC8785"; claims = claim ∷ [] })
      (verify_chains no_collation engine inputs accepts_all none)

reported :
    verify_checkpoint no_collation engine inputs accepts_all accepts_all none document
    ≡ some the_report
unfolding verify_checkpoint check_declared_document_signature
reported = refl

report_agrees : the_report.outcome ≡ agrees
unfolding verify_chains finish_chains add_chain_event verify_one_chain sort verify_event_integrity
    calculate_digest digest_with build_digest_input canonicalize assert_json_value to_hex utf8
    digests_equal is_hex_digest hex_pairs from_hex bytes_equal check_signature compare_claim
report_agrees = refl

verify_checkpoint-agrees_example :
    Established no_collation engine inputs accepts_all accepts_all none document
verify_checkpoint-agrees_example =
    verify_checkpoint-agrees no_collation engine inputs accepts_all accepts_all none document
      the_report reported report_agrees

abbrev key : PublicKey
key = record {
  key_type = some "ed25519";
  exports = true;
  named_curve = none;
  modulus_length = none;
  public_exponent = none;
  point = some (repeat 32 9);
}

abbrev signature_value : String
signature_value =
    "CQkJCQkJCQkJCQkJCQkJCQkJCQkJCQkJCQkJCQkJCQkJCQkJCQkJCQkJCQkJCQkJCQkJCQkJCQkJCQkJCQkJCQ=="
