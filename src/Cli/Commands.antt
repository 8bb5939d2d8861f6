-- ===== src/Cli/Commands.antt =====
-- conformance/src/cli.ts: the commands, from their paths to their exit codes. A command that throws
-- exits as the entry point makes it.
use open_audit_model.Common.{
  ℕ, String, true, false, ◌&&◌, Option, none, some, List, [], ◌∷◌, map, ltb, ◌==◌, if◌then◌else◌,
  length, ◌===◌, decimal, ◌+++◌,
}
use open_audit_model.Json.{Value}
use open_audit_model.Integrity.Findings.{Validator, EventResult}
use open_audit_model.Integrity.Signature.{PublicKey}
use open_audit_model.Integrity.Event.{verify_event_integrity}
use open_audit_model.Integrity.Chain.{ChainEventInput}
use open_audit_model.Integrity.Chain.Intake.{start_chain_intake, add_chain_event, finish_chains}
use open_audit_model.Integrity.Checkpoint.Compare.{verify_checkpoint, CheckpointReport}
use open_audit_model.Integrity.Proof.{verify_proof, ProofReport}
use open_audit_model.Privacy.LintEvent.Report.{lint_event, EventLintResult}
use open_audit_model.Privacy.Tally.{start_lint_tally, add_to_lint_tally, finish_lint_tally}
use open_audit_model.Profiles.Types.{
  start_profile_tally, add_to_profile_tally, ProfileDefinition, ProfileCheckResult,
}
use open_audit_model.Profiles.Check.{check_profile}
use open_audit_model.Profiles.Coverage.{summarise_coverage, ProfileCoverage}
use open_audit_model.Sources.Stream.{
  stream_event_documents, load_event_documents, EventDocument, DocumentLoadResult,
}
use open_audit_model.Cli.{
  exit_error, drain, if_any, count_validated, count_verified, exit_of, validate_verdict,
  integrity_verdict, chain_verdict, checkpoint_verdict, proof_verdict, lint_verdict,
  profile_verdict, coverage_verdict, Machine, Streamed,
}

module _ (machine : Machine) where
  open machine use {
    host, platform, engine, path_error, display_path, create_validator, create_checkpoint_validator,
    create_proof_validator, read_json_file, load_profile, read_public_key,
  }

  -- `displayLabel`
  abbrev pub display_label : EventDocument → String
  display_label d = elim d.index [
    | none ↦ display_path d.file
    | some n ↦ display_path d.file +++ ("#" +++ decimal n)
  ]

  abbrev pub stream_with :
      {S : Type 0} → (S → EventDocument → S) → S → List String → Option (Streamed S)
  stream_with on_event start inputs =
      if path_error inputs
      then none
      else if_any (
          drain on_event (record { kept = start; failures = []; total = 0 })
            (stream_event_documents host false inputs))

  -- `streamInput`
  unfoldable pub stream_input :
      {S : Type 0} → (Validator → S → EventDocument → S) → S → List String → Option (Streamed S)
  stream_input on_event start [] = none
  stream_input on_event start (input ∷ inputs) = elim create_validator [
    | none ↦ none
    | some validator ↦ stream_with (on_event validator) start (input ∷ inputs)
  ]

  abbrev pub load_with : DocumentLoadResult → Option (Validator × DocumentLoadResult)
  load_with result =
      if length result.documents == 0 && length result.failures == 0
      then none
      else elim create_validator [ none ↦ none | some validator ↦ some (validator, result) ]

  -- `loadInput`
  unfoldable pub load_input : List String → Option (Validator × DocumentLoadResult)
  load_input [] = none
  load_input (input ∷ inputs) =
      if path_error (input ∷ inputs)
      then none
      else load_with (load_event_documents host (input ∷ inputs))

  -- The exit code of a run over what was loaded, which judges nothing of an archive that was read in
  -- part.
  abbrev pub exit_of_loaded :
      (Validator → List EventDocument → ℕ) → Option (Validator × DocumentLoadResult) → ℕ
  exit_of_loaded verdict none = exit_error
  exit_of_loaded verdict (some (validator, result)) =
      if ltb 0 (length result.failures) then exit_error else verdict validator result.documents

  -- `runValidate`
  unfoldable pub run_validate : List String → ℕ
  run_validate inputs =
      exit_of validate_verdict
        (stream_input count_validated (record { valid = 0; invalid = 0; not_evaluated = 0 }) inputs)

  abbrev pub event_verdict : Option PublicKey → Validator → EventDocument → EventResult
  event_verdict key validator d =
      verify_event_integrity engine d.event (display_label d) validator true key

  -- `runVerifyIntegrity`
  unfoldable pub run_verify_integrity : Option PublicKey → List String → ℕ
  run_verify_integrity key inputs = exit_of integrity_verdict (
      stream_input (λ v c d. count_verified (event_verdict key v d) c)
        (record { verified = 0; failed = 0 }) inputs)

  abbrev pub chain_input : EventDocument → ChainEventInput
  chain_input d = record { label = display_label d; event = d.event }

  -- `runVerifyChain`
  unfoldable pub run_verify_chain : Option PublicKey → List String → ℕ
  run_verify_chain key inputs =
      exit_of (λ intake. chain_verdict (finish_chains platform.locale_compare intake))
        (stream_input (λ v intake d. add_chain_event engine v key intake (chain_input d))
          start_chain_intake inputs)

  abbrev pub checkpoint_report :
      Option PublicKey
      → Validator
      → Validator
      → List EventDocument
      → Value
      → Option CheckpointReport
  checkpoint_report key validator checkpoint docs document =
      verify_checkpoint platform.locale_compare engine (map chain_input docs) validator checkpoint
        key document

  -- `runVerifyCheckpoint`, once a checkpoint is named
  unfoldable pub run_verify_checkpoint : Option PublicKey → String → List String → ℕ
  run_verify_checkpoint key file inputs =
      exit_of_loaded
        (λ validator docs. elim (read_json_file file) [
          | none ↦ exit_error
          | some document ↦ elim create_checkpoint_validator [
            | none ↦ exit_error
            | some checkpoint ↦
                checkpoint_verdict (checkpoint_report key validator checkpoint docs document)
          ]
        ])
        (load_input inputs)

  abbrev pub proof_report :
      Option PublicKey → Validator → Validator → EventDocument → Value → Option ProofReport
  proof_report key validator proof d document =
      verify_proof engine validator proof key d.event (display_label d) document

  abbrev pub one_proof : Option PublicKey → String → Validator → List EventDocument → ℕ
  one_proof key file validator (d ∷ []) = elim (read_json_file file) [
    | none ↦ exit_error
    | some document ↦ elim create_proof_validator [
      | none ↦ exit_error
      | some proof ↦ proof_verdict (proof_report key validator proof d document)
    ]
  ]
  one_proof key file validator docs = exit_error

  -- `runVerifyProof`, once a proof is named
  unfoldable pub run_verify_proof : Option PublicKey → String → List String → ℕ
  run_verify_proof key file inputs = exit_of_loaded (one_proof key file) (load_input inputs)

  abbrev pub lint_result : Validator → EventDocument → EventLintResult
  lint_result validator d = lint_event platform d.event (display_label d) validator true

  -- `runLintPrivacy`
  unfoldable pub run_lint_privacy : List String → ℕ
  run_lint_privacy inputs =
      exit_of (λ tally. lint_verdict (finish_lint_tally platform.locale_compare tally))
        (stream_input (λ v tally d. add_to_lint_tally tally (lint_result v d)) start_lint_tally
          inputs)

  abbrev pub profile_result : ProfileDefinition → Validator → EventDocument → ProfileCheckResult
  profile_result profile validator d =
      check_profile d.event (display_label d) profile validator true

  -- The profile that is named, loaded.
  abbrev pub named_profile : Option String → Option ProfileDefinition
  named_profile none = none
  named_profile (some name) = if name === "" then none else load_profile name

  abbrev pub checked : List String → Option ProfileDefinition → ℕ
  checked inputs none = exit_error
  checked inputs (some profile) = exit_of profile_verdict (
      stream_input (λ v tally d. add_to_profile_tally tally (profile_result profile v d))
        start_profile_tally inputs)

  -- `runCheckProfile`
  unfoldable pub run_check_profile : Option String → List String → ℕ
  run_check_profile name inputs = checked inputs (named_profile name)

  abbrev pub coverage_report : ProfileDefinition → Validator → List EventDocument → ProfileCoverage
  coverage_report profile validator docs =
      summarise_coverage profile platform.locale_compare (map (λ d. d.event) docs)
        (map (profile_result profile validator) docs)

  abbrev pub covered : List String → Option ProfileDefinition → ℕ
  covered inputs none = exit_error
  covered inputs (some profile) =
      exit_of_loaded (λ v docs. coverage_verdict (coverage_report profile v docs))
        (load_input inputs)

  -- `runCheckCoverage`
  unfoldable pub run_check_coverage : Option String → List String → ℕ
  run_check_coverage name inputs = covered inputs (named_profile name)
