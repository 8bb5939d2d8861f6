-- ===== src/Cli/Run.antt =====
-- conformance/src/cli.ts: `run`, from the arguments to the command.
use open_audit_model.Common.{
  ℕ, String, Bool, true, false, not, ◌&&◌, ◌||◌, Option, none, some, List, [], ◌∷◌, if◌then◌else◌,
  ◌===◌, includes, value_or,
}
use open_audit_model.Integrity.Signature.{PublicKey}
use open_audit_model.Cli.{exit_ok, exit_error, Machine}
use open_audit_model.Cli.Commands.{
  run_validate, run_verify_integrity, run_verify_chain, run_verify_checkpoint, run_verify_proof,
  run_lint_privacy, run_check_profile, run_check_coverage,
}

-- What `parseArgs` makes of the arguments.
pub record Arguments : Type 0 where
  pub help : Bool
  pub version : Bool
  pub format : Option String
  pub profile : Option String
  pub checkpoint : Option String
  pub proof : Option String
  pub public_key : Option String
  pub positionals : List String

-- `OUTPUT_FORMATS`
abbrev pub output_formats : List String
output_formats = "text" ∷ "json" ∷ []

-- `IMPLEMENTED_COMMANDS`
abbrev pub implemented_commands : List String
implemented_commands =
    "validate" ∷ "verify-integrity" ∷ "verify-chain" ∷ "verify-checkpoint" ∷ "verify-proof"
    ∷ "lint-privacy" ∷ "check-profile" ∷ "check-coverage" ∷ []

-- `FORMAT_COMMANDS`
abbrev pub format_commands : List String
format_commands =
    "verify-checkpoint" ∷ "verify-proof" ∷ "lint-privacy" ∷ "check-profile" ∷ "check-coverage" ∷ []

-- `PUBLIC_KEY_COMMANDS`
abbrev pub public_key_commands : List String
public_key_commands =
    "verify-integrity" ∷ "verify-chain" ∷ "verify-checkpoint" ∷ "verify-proof" ∷ []

abbrev pub is_given : Option String → Bool
is_given none = false
is_given (some s) = true

-- The guards of `run` on options that the command does not take.
abbrev pub refuses : Arguments → String → Bool
refuses args command =
    let known = includes implemented_commands command in
    not (includes output_formats (value_or args.format "text"))
    || (is_given args.format && known && not (includes format_commands command))
    || (is_given args.checkpoint && known && not (command === "verify-checkpoint"))
    || (is_given args.proof && known && not (command === "verify-proof"))

module _ (machine : Machine) where
  open machine use {create_validator, read_public_key}

  -- The key that is given to a command that takes one; `none` is an error.
  abbrev pub key_for : Arguments → String → Option (Option PublicKey)
  key_for args command =
      if includes public_key_commands command
      then elim args.public_key [
        | none ↦ some none
        | some path ↦ elim (read_public_key path) [ none ↦ none | some key ↦ some (some key) ]
      ]
      else some none

  -- A command that needs a file of its own.
  abbrev pub with_file : Option String → (String → ℕ) → ℕ
  with_file none command = exit_error
  with_file (some file) command = command file

  -- The commands.
  abbrev pub dispatch : Arguments → String → List String → Option PublicKey → ℕ
  dispatch args command rest key =
      if command === "validate"
      then run_validate machine rest
      else if command === "verify-integrity"
      then run_verify_integrity machine key rest
      else if command === "verify-chain"
      then run_verify_chain machine key rest
      else if command === "verify-checkpoint"
      then with_file args.checkpoint (λ file. run_verify_checkpoint machine key file rest)
      else if command === "verify-proof"
      then with_file args.proof (λ file. run_verify_proof machine key file rest)
      else if command === "lint-privacy"
      then run_lint_privacy machine rest
      else if command === "check-profile"
      then run_check_profile machine args.profile rest
      else if command === "check-coverage"
      then run_check_coverage machine args.profile rest
      else exit_error

  abbrev pub with_command : Arguments → List String → ℕ
  with_command args [] = if args.help then exit_ok else exit_error
  with_command args (command ∷ rest) =
      if args.help || command === "help"
      then exit_ok
      else if refuses args command
      then exit_error
      else elim (key_for args command) [
        | none ↦ exit_error
        | some key ↦ dispatch args command rest key
      ]

  -- `run`, from what `parseArgs` gives; `none` is a throw
  unfoldable pub run : Option Arguments → ℕ
  run none = exit_error
  run (some args) =
      if args.version
      then elim create_validator [ none ↦ exit_error | some validator ↦ exit_ok ]
      else with_command args args.positionals
