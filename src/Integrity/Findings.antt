-- ===== src/Integrity/Findings.antt =====
-- conformance/src/integrity/types.ts: findings, checks and results. A finding is its kind and its
-- label; a passed check is what its message says. The message and detail texts are not modelled.
use open_audit_model.Common.{ℕ, String, Bool, Option, none, some, List}
use open_audit_model.Json.{Value}

-- `EventFindingKind`, `ChainFindingKind`, `CheckpointFindingKind`, `ProofFindingKind`
pub data FindingKind : Type 0 where
  schema_invalid integrity_missing hash_missing hash_algorithm_missing : FindingKind
  canonicalization_missing unsupported_canonicalization unsupported_algorithm : FindingKind
  malformed_hash digest_length_mismatch hash_mismatch canonicalization_failed : FindingKind
  unsupported_signature_algorithm malformed_signature signature_invalid : FindingKind
  chain_id_missing sequence_missing duplicate_sequence previous_hash_missing : FindingKind
  broken_link algorithm_mismatch : FindingKind
  checkpoint_schema_invalid checkpoint_chain_missing checkpoint_algorithm_mismatch : FindingKind
  tail_truncated checkpoint_head_mismatch checkpoint_head_missing : FindingKind
  checkpoint_count_mismatch checkpoint_members_unverified : FindingKind
  proof_schema_invalid proof_algorithm_unsupported proof_digest_length_mismatch : FindingKind
  proof_position_invalid proof_path_inconsistent proof_root_mismatch : FindingKind
  proof_leaf_unavailable proof_leaf_mismatch : FindingKind

-- `Finding`
pub record Finding : Type 0 where
  pub kind : FindingKind
  pub label : Option String

-- A finding about one event.
abbrev pub at_event : FindingKind → String → Finding
at_event kind label = record { kind = kind; label = some label }

-- A finding about the whole.
abbrev pub overall : FindingKind → Finding
overall kind = record { kind = kind; label = none }

-- `PassedCheck`
pub data Check : Type 0 where
  schema_valid hash_valid : Check
  canonicalization_is hash_algorithm_is : String → Check
  signature_unchecked signature_valid : String → Check
  digests_valid links_valid : ℕ → Check
  starts_at_genesis : Check
  head_matches count_matches : ℕ → Check
  path_shape : ℕ → ℕ → Check
  root_recomputed leaf_is_hash : Check

-- `ValidationIssue` of conformance/src/format-errors.ts
pub record ValidationIssue : Type 0 where
  pub path : String
  pub message : String
  pub keyword : String
  pub detail : Option String

-- `EventValidator.validateEvent`: the compiled schema is a parameter
abbrev pub Validator : Type 0
Validator = Value → List ValidationIssue

-- `EventVerificationResult`
pub record EventResult : Type 0 where
  pub label : String
  pub verified : Bool
  pub checks : List Check
  pub findings : List Finding
  pub canonicalization : Option String
  pub hash_algorithm : Option String
  pub declared_hash : Option String
  pub calculated_hash : Option String
