-- ===== src/Cli/Exits.antt =====
-- What the exit code 0 says of a command line.
use open_audit_model.Common.{
  ℕ, String, ◌≡◌, sym, subst, inl, inr, true, false, Option, none, some, List, ◌∷◌, Bool-cases,
  Option-cases, ◌===◌, ===→≡, refl, some_inj, includes,
}
use open_audit_model.Integrity.Signature.{PublicKey}
use open_audit_model.Profiles.Types.{ProfileDefinition}
use open_audit_model.Cli.{exit_ok, Machine}
use open_audit_model.Cli.Commands.{named_profile, run_check_profile, run_check_coverage}
use open_audit_model.Cli.Run.{
  refuses, key_for, with_file, dispatch, run, Arguments, public_key_commands,
}
use open_audit_model.Cli.Branches.{dispatch_by}
use open_audit_model.Cli.Passed.{
  validate-HasPassed, integrity-HasPassed, chain-HasPassed, checkpoint-HasPassed, proof-HasPassed,
  lint-HasPassed, profile-HasPassed, coverage-HasPassed, HasPassed,
}

-- The key that a command works with: the one in the file that is named, for a command that takes one.
pub data IsKeyFor (machine : Machine) (args : Arguments) (command : String)
    : Option PublicKey → Type 0 where
  not_taken : includes public_key_commands command ≡ false → IsKeyFor machine args command none
  not_given : args.public_key ≡ none → IsKeyFor machine args command none
  given :
      (path : String) (key : PublicKey)
      → includes public_key_commands command ≡ true
      → args.public_key ≡ some path
      → machine.read_public_key path ≡ some key
      → IsKeyFor machine args command (some key)

key_for-IsKeyFor :
    (machine : Machine) (args : Arguments) (command : String) (key : Option PublicKey)
    → key_for machine args command ≡ some key
    → IsKeyFor machine args command key
key_for-IsKeyFor machine args command key e =
    elim (Bool-cases (includes public_key_commands command)) [
      | inr n ↦ subst (IsKeyFor machine args command) (some_inj (rw n at e)) (not_taken n)
      | inl t ↦ elim (Option-cases args.public_key) [
        | inl o ↦ subst (IsKeyFor machine args command) (some_inj (rw (t, o) at e)) (not_given o)
        | inr (path, p) ↦ elim (Option-cases (machine.read_public_key path)) [
          | inl bad ↦ cc (rw (t, p, bad) at e)
          | inr (k, r) ↦
              subst (IsKeyFor machine args command) (some_inj (rw (t, p, r) at e))
                (given path k t p r)
        ]
      ]
    ]

module _ (machine : Machine) (args : Arguments) (inputs : List String)
    (key : Option PublicKey) where
  abbrev Passed : String → Type 0
  Passed command = HasPassed machine args inputs key command

  file-Passed :
      (o : Option String) (go : String → ℕ) {name : String}
      → ((file : String) → o ≡ some file → go file ≡ 0 → Passed name)
      → with_file machine o go ≡ 0
      → Passed name
  file-Passed none go f e = cc
  file-Passed (some file) go f e = f file refl e

  -- A profile that is named and loaded.
  named_loaded :
      (o : Option String) (profile : ProfileDefinition)
      → named_profile machine o ≡ some profile
      → (name : String) × (o ≡ some name) × (machine.load_profile name ≡ some profile)
  named_loaded none profile e = cc
  named_loaded (some name) profile e = elim (Bool-cases (name === "")) [
    | inl empty ↦ cc (rw empty at e)
    | inr some_name ↦ (name, refl, rw some_name at e)
  ]

  check_profile-Passed : run_check_profile machine args.profile inputs ≡ 0 → Passed "check-profile"
  unfolding run_check_profile
  check_profile-Passed e = elim (Option-cases (named_profile machine args.profile)) [
    | inl bad ↦ cc (rw bad at e)
    | inr (profile, p) ↦
        let (name, n, l) = named_loaded args.profile profile p in
        profile-HasPassed machine args inputs key name profile n l (rw p at e)
  ]

  check_coverage-Passed :
      run_check_coverage machine args.profile inputs ≡ 0 → Passed "check-coverage"
  unfolding run_check_coverage
  check_coverage-Passed e = elim (Option-cases (named_profile machine args.profile)) [
    | inl bad ↦ cc (rw bad at e)
    | inr (profile, p) ↦
        let (name, n, l) = named_loaded args.profile profile p in
        coverage-HasPassed machine args inputs key name profile n l (rw p at e)
  ]

  dispatch-Passed :
      (command : String) → dispatch machine args command inputs key ≡ 0 → Passed command
  dispatch-Passed command =
      dispatch_by machine args command inputs key (λ n. n ≡ 0 → Passed command)
        (λ h e. here h (validate-HasPassed machine args inputs key e))
        (λ h e. here h (integrity-HasPassed machine args inputs key e))
        (λ h e. here h (chain-HasPassed machine args inputs key e))
        (λ h e.
          here h (file-Passed args.checkpoint _ (checkpoint-HasPassed machine args inputs key) e))
        (λ h e. here h (file-Passed args.proof _ (proof-HasPassed machine args inputs key) e))
        (λ h e. here h (lint-HasPassed machine args inputs key e))
        (λ h e. here h (check_profile-Passed e)) (λ h e. here h (check_coverage-Passed e)) (λ e. cc)
    where
      here : {name : String} → (command === name) ≡ true → Passed name → Passed command
      here {name} h p = subst Passed (sym (===→≡ command name h)) p

module _ (machine : Machine) (args : Arguments) (command : String) (inputs : List String) where
  -- Where neither the version nor the help is asked for, a command line exits with 0 only when its
  -- paths were read in full, hold at least one event, and the command has passed on them: every
  -- event is valid; every event is verified; at least one chain is checked and all are intact; the
  -- archive agrees with the checkpoint in the file that --checkpoint names, under the checkpoint
  -- schema; the proof of the one event in the file that --proof names, under the proof schema, is
  -- verified; every event was scanned and is clean; every event conforms to the profile that
  -- --profile names or is not governed by it, and at least one conforms; or at least one event name
  -- is governed by that profile. A command that takes a key has the one in the file that
  -- --public-key names, where one is named, and any other command none.
  pub run-HasPassed :
      args.version ≡ false
      → args.help ≡ false
      → (command === "help") ≡ false
      → args.positionals ≡ command ∷ inputs
      → run machine (some args) ≡ exit_ok
      → (key : Option PublicKey) × IsKeyFor machine args command key
        × HasPassed machine args inputs key command
  unfolding run
  run-HasPassed v h c p e = elim (Bool-cases (refuses args command)) [
    | inl bad ↦ cc (rw (v, p, h, c, bad) at e)
    | inr fine ↦ elim (Option-cases (key_for machine args command)) [
      | inl bad ↦ cc (rw (v, p, h, c, fine, bad) at e)
      | inr (key, k) ↦ (
        key,
        key_for-IsKeyFor machine args command key k,
        dispatch-Passed machine args inputs key command (rw (v, p, h, c, fine, k) at e),
      )
    ]
  ]
