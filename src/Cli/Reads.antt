-- ===== src/Cli/Reads.antt =====
-- What a verdict of any kind says of the input.
use open_audit_model.Common.{
  ℕ, String, ◌≡◌, refl, ◌≢◌, inl, inr, Bool, true, false, Option, none, some, List, ◌∷◌, Bool-cases,
  Option-cases, ◌===◌,
}
use open_audit_model.Integrity.Findings.{Validator}
use open_audit_model.Integrity.Signature.{PublicKey}
use open_audit_model.Integrity.Chain.Intake.{start_chain_intake}
use open_audit_model.Privacy.Tally.{start_lint_tally}
use open_audit_model.Profiles.Types.{start_profile_tally, ProfileDefinition}
use open_audit_model.Sources.Stream.{EventDocument}
use open_audit_model.Cli.{
  exit_error, exit_of, validate_verdict, integrity_verdict, profile_verdict, Machine,
}
use open_audit_model.Cli.Commands.{
  stream_input, load_input, exit_of_loaded, run_validate, run_verify_integrity, run_verify_chain,
  run_verify_checkpoint, run_verify_proof, run_lint_privacy, named_profile, checked,
  run_check_profile, covered, run_check_coverage,
}
use open_audit_model.Cli.Run.{refuses, key_for, with_file, dispatch, run, Arguments}
use open_audit_model.Cli.Drain.{exit_of-IsRead, exit_of_loaded-IsRead, IsRead}
use open_audit_model.Cli.Branches.{dispatch_by}

-- The paths were read in full, by one of the two ways of reading them.
abbrev pub WasRead : Machine → List String → Type 0
WasRead machine inputs =
    (whole : Bool) × (v : Validator) × (docs : List EventDocument) × IsRead machine whole inputs v
      docs

module _ (machine : Machine) (inputs : List String) where
  abbrev Reads : ℕ → Type 0
  Reads code = code ≢ exit_error → WasRead machine inputs

  exit_of-Reads :
      {S : Type 0} (on_event : Validator → S → EventDocument → S) (start : S) (verdict : S → ℕ)
      → Reads (exit_of verdict (stream_input machine on_event start inputs))
  exit_of-Reads on_event start verdict ne =
      let (v, docs, r, k) = exit_of-IsRead machine on_event start verdict inputs ne refl in
      (false, v, docs, r)

  exit_of_loaded-Reads :
      (verdict : Validator → List EventDocument → ℕ)
      → Reads (exit_of_loaded machine verdict (load_input machine inputs))
  exit_of_loaded-Reads verdict ne =
      let (v, docs, r, k) = exit_of_loaded-IsRead machine verdict inputs ne refl in
      (true, v, docs, r)

  with_file-Reads :
      (o : Option String) (go : String → ℕ)
      → ((file : String) → Reads (go file))
      → Reads (with_file machine o go)
  with_file-Reads none go f ne = absurd (ne refl)
  with_file-Reads (some file) go f ne = f file ne

  checked-Reads : (o : Option ProfileDefinition) → Reads (checked machine inputs o)
  checked-Reads none ne = absurd (ne refl)
  checked-Reads (some profile) ne = exit_of-Reads _ start_profile_tally profile_verdict ne

  covered-Reads : (o : Option ProfileDefinition) → Reads (covered machine inputs o)
  covered-Reads none ne = absurd (ne refl)
  covered-Reads (some profile) ne = exit_of_loaded-Reads _ ne

  dispatch-Reads :
      (args : Arguments) (command : String) (key : Option PublicKey)
      → Reads (dispatch machine args command inputs key)
  unfolding run_validate run_verify_integrity run_verify_chain run_verify_checkpoint
      run_verify_proof run_lint_privacy run_check_profile run_check_coverage
  dispatch-Reads args command key =
      dispatch_by machine args command inputs key Reads (λ h. exit_of-Reads _ _ validate_verdict)
        (λ h. exit_of-Reads _ _ integrity_verdict) (λ h. exit_of-Reads _ start_chain_intake _)
        (λ h. with_file-Reads args.checkpoint _ (λ file. exit_of_loaded-Reads _))
        (λ h. with_file-Reads args.proof _ (λ file. exit_of_loaded-Reads _))
        (λ h. exit_of-Reads _ start_lint_tally _)
        (λ h. checked-Reads (named_profile machine args.profile))
        (λ h. covered-Reads (named_profile machine args.profile)) (λ ne. absurd (ne refl))

module _ (machine : Machine) (args : Arguments) (command : String) (inputs : List String) where
  -- Where neither the version nor the help is asked for, a command line that gives a verdict of any
  -- kind, passed, failed or none, has read its paths in full, and at least one event: a file, a line or
  -- a document that cannot be read makes it exit with 2.
  pub run-WasRead :
      args.version ≡ false
      → args.help ≡ false
      → (command === "help") ≡ false
      → args.positionals ≡ command ∷ inputs
      → run machine (some args) ≢ exit_error
      → WasRead machine inputs
  unfolding run
  run-WasRead v h c p ne = elim (Bool-cases (refuses args command)) [
    | inl bad ↦ absurd (ne (rw (v, p, h, c, bad) refl))
    | inr fine ↦ elim (Option-cases (key_for machine args command)) [
      | inl bad ↦ absurd (ne (rw (v, p, h, c, fine, bad) refl))
      | inr (key, k) ↦
          dispatch-Reads machine inputs args command key (rw (v, p, h, c, fine, k) at ne)
    ]
  ]
