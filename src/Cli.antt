-- ===== src/Cli.antt =====
-- conformance/src/cli.ts: the exit codes, and what a verdict gives. What the commands print is not
-- modelled.
pub mod Commands
pub mod Run
pub mod Drain
pub mod Verdicts
pub mod Results
pub mod Outcomes
pub mod Passed
pub mod Branches
pub mod Exits
pub mod Reads
use open_audit_model.Common.{
  ℕ, ◌+◌, String, Bool, ◌&&◌, ◌||◌, Option, none, some, List, [], ◌∷◌, ltb, ◌==◌, if◌then◌else◌,
  length, ◌++◌,
}
use open_audit_model.Json.{Value}
use open_audit_model.Integrity.Findings.{ValidationIssue, Validator, EventResult}
use open_audit_model.Integrity.Signature.{PublicKey}
use open_audit_model.Integrity.Event.{Engine}
use open_audit_model.Integrity.Chain.Verify.{ChainReport}
use open_audit_model.Integrity.Checkpoint.Compare.{
  agrees, disagrees, no_chain, invalid_checkpoint, CheckpointReport,
}
use open_audit_model.Integrity.Proof.{
  proof_verified, proof_failed, no_leaf, invalid_proof, ProofReport,
}
use open_audit_model.Versions.{was_not_evaluated}
use open_audit_model.Privacy.Platform.{Platform}
use open_audit_model.Privacy.Tally.{LintSummary}
use open_audit_model.Profiles.Types.{ProfileDefinition, ProfileTally}
use open_audit_model.Profiles.Coverage.{ProfileCoverage}
use open_audit_model.Sources.Stream.{LoadError, LoadedItem, loaded, Host, EventDocument}

-- `EXIT_OK`, `EXIT_INVALID`, `EXIT_ERROR`, `EXIT_NO_VERDICT`
abbrev pub exit_ok : ℕ
exit_ok = 0

abbrev pub exit_invalid : ℕ
exit_invalid = 1

abbrev pub exit_error : ℕ
exit_error = 2

abbrev pub exit_no_verdict : ℕ
exit_no_verdict = 3

-- What the tool runs on.
pub record Machine : Type 0 where
  pub host : Host
  pub platform : Platform
  pub engine : Engine
  -- whether expanding the paths throws, as it does where there is no such file
  pub path_error : List String → Bool
  -- `path.relative` and what `displayPath` does with it
  pub display_path : String → String
  -- the three compiled schemas; `none` is a throw
  pub create_validator : Option Validator
  pub create_checkpoint_validator : Option Validator
  pub create_proof_validator : Option Validator
  -- `readJsonFile`; `none` is a failure
  pub read_json_file : String → Option Value
  -- `loadProfile`; `none` is a failure
  pub load_profile : String → Option ProfileDefinition
  -- `readFileSync` and `loadPublicKey`; `none` is a throw
  pub read_public_key : String → Option PublicKey

-- `StreamedInput`, with what the closure of the command keeps
pub record Streamed (S : Type 0) : Type 0 where
  pub kept : S
  pub failures : List (String × LoadError)
  pub total : ℕ

-- The counters of `runValidate`.
pub record ValidateCounts : Type 0 where
  pub valid : ℕ
  pub invalid : ℕ
  pub not_evaluated : ℕ

-- The counters of `runVerifyIntegrity`.
pub record IntegrityCounts : Type 0 where
  pub verified : ℕ
  pub failed : ℕ

-- One round of the loop of `streamInput`.
abbrev pub take_item : {S : Type 0} → (S → EventDocument → S) → Streamed S → LoadedItem → Streamed S
take_item on_event s (LoadedItem.failure file e) = record s {
  failures = s.failures ++ (file, e) ∷ [];
}
take_item on_event s (loaded d) = record s { kept = on_event s.kept d; total = s.total + 1 }

unfoldable pub drain :
    {S : Type 0} → (S → EventDocument → S) → Streamed S → List LoadedItem → Streamed S
drain on_event s [] = s
drain on_event s (i ∷ is) = drain on_event (take_item on_event s i) is

-- The guard after the loop.
abbrev pub if_any : {S : Type 0} → Streamed S → Option (Streamed S)
if_any s = if s.total == 0 && length s.failures == 0 then none else some s

abbrev pub count_issues : List ValidationIssue → ValidateCounts → ValidateCounts
count_issues [] c = record c { valid = c.valid + 1 }
count_issues (issue ∷ issues) c =
    if was_not_evaluated (issue ∷ issues)
    then record c { not_evaluated = c.not_evaluated + 1 }
    else record c { invalid = c.invalid + 1 }

abbrev pub count_validated : Validator → ValidateCounts → EventDocument → ValidateCounts
count_validated validator c d = count_issues (validator d.event) c

abbrev pub count_verified : EventResult → IntegrityCounts → IntegrityCounts
count_verified result c =
    if result.verified
    then record c { verified = c.verified + 1 }
    else record c { failed = c.failed + 1 }

-- The exit code of a run over a stream; `none` is an error before the verdict.
abbrev pub exit_of : {S : Type 0} → (S → ℕ) → Option (Streamed S) → ℕ
exit_of verdict none = exit_error
exit_of verdict (some s) = if ltb 0 (length s.failures) then exit_error else verdict s.kept

abbrev pub validate_verdict : ValidateCounts → ℕ
validate_verdict c =
    if ltb 0 c.invalid
    then exit_invalid
    else if ltb 0 c.not_evaluated
    then exit_no_verdict
    else exit_ok

abbrev pub integrity_verdict : IntegrityCounts → ℕ
integrity_verdict c = if ltb 0 c.failed then exit_invalid else exit_ok

abbrev pub chain_verdict : ChainReport → ℕ
chain_verdict report =
    if length report.chains == 0
    then exit_no_verdict
    else if report.intact
    then exit_ok
    else exit_invalid

abbrev pub checkpoint_verdict : Option CheckpointReport → ℕ
checkpoint_verdict none = exit_error
checkpoint_verdict (some report) = elim report.outcome [
  | invalid_checkpoint ↦ exit_error
  | no_chain ↦ exit_no_verdict
  | agrees ↦ exit_ok
  | disagrees ↦ exit_invalid
]

abbrev pub proof_verdict : Option ProofReport → ℕ
proof_verdict none = exit_error
proof_verdict (some report) = elim report.outcome [
  | invalid_proof ↦ exit_error
  | no_leaf ↦ exit_no_verdict
  | proof_verified ↦ exit_ok
  | proof_failed ↦ exit_invalid
]

abbrev pub lint_verdict : LintSummary → ℕ
lint_verdict summary =
    if ltb 0 summary.found_count
    then exit_invalid
    else if ltb 0 summary.invalid_events
    then exit_no_verdict
    else exit_ok

abbrev pub profile_verdict : ProfileTally → ℕ
profile_verdict summary =
    if ltb 0 summary.errors || ltb 0 summary.core_invalid_events
    then exit_invalid
    else if summary.conforming_events == 0 && ltb 0 summary.not_applicable_events
    then exit_no_verdict
    else exit_ok

abbrev pub coverage_verdict : ProfileCoverage → ℕ
coverage_verdict coverage = if coverage.governed_names == 0 then exit_no_verdict else exit_ok
