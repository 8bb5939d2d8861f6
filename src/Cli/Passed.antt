-- ===== src/Cli/Passed.antt =====
-- What the exit code 0 of a command says.
use open_audit_model.Common.{
  ◌<◌, String, ◌≡◌, refl, subst, ◌⊎◌, inl, inr, true, false, Option, some, List, [], ◌∷◌, map,
  length, All, Option-cases,
}
use open_audit_model.Json.{Value}
use open_audit_model.Integrity.Findings.{Validator}
use open_audit_model.Integrity.Signature.{PublicKey}
use open_audit_model.Integrity.Chain.Verify.{ChainReport, ChainIntake}
use open_audit_model.Integrity.Chain.Intake.{
  start_chain_intake, add_chain_event, add_chain_events, finish_chains, verify_chains,
}
use open_audit_model.Integrity.Checkpoint.Compare.{agrees, CheckpointReport}
use open_audit_model.Integrity.Proof.{proof_verified, ProofReport}
use open_audit_model.Privacy.Rules.{LintStatus}
use open_audit_model.Privacy.Tally.{start_lint_tally}
use open_audit_model.Profiles.Types.{
  start_profile_tally, summarise_profile_results, conforming, not_applicable, ProfileDefinition,
}
use open_audit_model.Sources.Stream.{EventDocument}
use open_audit_model.Cli.Outcomes.{
  chain_verdict_lem, checkpoint_verdict_lem, proof_verdict_lem, some_names,
}
use open_audit_model.Cli.Results.{All-weaken, lint_event-clean, check_profile-Consistent}
use open_audit_model.Cli.{
  count_validated, validate_verdict, integrity_verdict, chain_verdict, profile_verdict, Machine,
  ValidateCounts, IntegrityCounts,
}
use open_audit_model.Cli.Commands.{
  display_label, run_validate, event_verdict, run_verify_integrity, chain_input, run_verify_chain,
  checkpoint_report, run_verify_checkpoint, proof_report, run_verify_proof, lint_result,
  run_lint_privacy, profile_result, checked, coverage_report, covered, one_proof,
}
use open_audit_model.Cli.Run.{Arguments}
use open_audit_model.Cli.Drain.{keep_all, exit_of-IsRead, exit_of_loaded-IsRead, IsRead, passes}
use open_audit_model.Cli.Verdicts.{
  validate_verdict-All, integrity_verdict-All, profile_verdict-All, lint_verdict-All,
}

module _ (machine : Machine) (args : Arguments) (inputs : List String)
    (key : Option PublicKey) where
  -- What each command establishes of the events in the paths when it exits with 0, of the file or the
  -- profile that its option names, and under the schema that is compiled for it.
  pub data HasPassed : String → Type 0 where
    all_valid :
        (v : Validator) (docs : List EventDocument)
        → IsRead machine false inputs v docs
        → All (λ d. v d.event ≡ []) docs
        → HasPassed "validate"
    all_verified :
        (v : Validator) (docs : List EventDocument)
        → IsRead machine false inputs v docs
        → All (λ d. (event_verdict machine key v d).verified ≡ true) docs
        → HasPassed "verify-integrity"
    chains_intact :
        (v : Validator) (docs : List EventDocument) (report : ChainReport)
        → IsRead machine false inputs v docs
        → verify_chains machine.platform.locale_compare machine.engine
            (map (chain_input machine) docs)
            v
            key
          ≡ report
        → report.intact ≡ true
        → 0 < length report.chains
        → HasPassed "verify-chain"
    archive_agrees :
        (v w : Validator) (docs : List EventDocument) (file : String) (document : Value)
        (report : CheckpointReport)
        → args.checkpoint ≡ some file
        → machine.read_json_file file ≡ some document
        → machine.create_checkpoint_validator ≡ some w
        → IsRead machine true inputs v docs
        → checkpoint_report machine key v w docs document ≡ some report
        → report.outcome ≡ agrees
        → HasPassed "verify-checkpoint"
    event_included :
        (v w : Validator) (d : EventDocument) (file : String) (document : Value)
        (report : ProofReport)
        → args.proof ≡ some file
        → machine.read_json_file file ≡ some document
        → machine.create_proof_validator ≡ some w
        → IsRead machine true inputs v (d ∷ [])
        → proof_report machine key v w d document ≡ some report
        → report.outcome ≡ proof_verified
        → HasPassed "verify-proof"
    all_clean :
        (v : Validator) (docs : List EventDocument)
        → IsRead machine false inputs v docs
        → All (λ d. (lint_result machine v d).status ≡ LintStatus.clean) docs
        → HasPassed "lint-privacy"
    none_violating :
        (v : Validator) (docs : List EventDocument) (name : String) (profile : ProfileDefinition)
        → args.profile ≡ some name
        → machine.load_profile name ≡ some profile
        → IsRead machine false inputs v docs
        → All
            (λ d.
              ((profile_result machine profile v d).status ≡ conforming)
              ⊎ ((profile_result machine profile v d).status ≡ not_applicable))
            docs
        → 0
          < (summarise_profile_results
              (map (profile_result machine profile v) docs)).conforming_events
        → HasPassed "check-profile"
    some_governed :
        (v : Validator) (docs : List EventDocument) (name : String) (profile : ProfileDefinition)
        → args.profile ≡ some name
        → machine.load_profile name ≡ some profile
        → IsRead machine true inputs v docs
        → 0 < (coverage_report machine profile v docs).governed_names
        → HasPassed "check-coverage"

  pub validate-HasPassed : run_validate machine inputs ≡ 0 → HasPassed "validate"
  unfolding run_validate
  validate-HasPassed e =
      let start : ValidateCounts = record { valid = 0; invalid = 0; not_evaluated = 0 } in
      let (v, docs, r, k) =
        exit_of-IsRead machine count_validated start validate_verdict inputs passes e in
      all_valid v docs r (validate_verdict-All v docs start k)

  pub integrity-HasPassed :
      run_verify_integrity machine key inputs ≡ 0 → HasPassed "verify-integrity"
  unfolding run_verify_integrity
  integrity-HasPassed e =
      let start : IntegrityCounts = record { verified = 0; failed = 0 } in
      let (v, docs, r, k) = exit_of-IsRead machine _ start integrity_verdict inputs passes e in
      all_verified v docs r (integrity_verdict-All (event_verdict machine key v) docs start k)

  kept_inputs :
      (v : Validator) (docs : List EventDocument) (intake : ChainIntake)
      → keep_all (λ i d. add_chain_event machine.engine v key i (chain_input machine d)) intake docs
        ≡ add_chain_events machine.engine v key intake (map (chain_input machine) docs)
  kept_inputs v [] intake = refl
  kept_inputs v (d ∷ ds) intake =
      kept_inputs v ds (add_chain_event machine.engine v key intake (chain_input machine d))

  pub chain-HasPassed : run_verify_chain machine key inputs ≡ 0 → HasPassed "verify-chain"
  unfolding run_verify_chain verify_chains
  chain-HasPassed e =
      let (v, docs, r, k) = exit_of-IsRead machine _ start_chain_intake _ inputs passes e in
      let same = kept_inputs v docs start_chain_intake in
      let (i, n) =
        chain_verdict_lem
          (finish_chains machine.platform.locale_compare (
            add_chain_events machine.engine v key start_chain_intake
              (map (chain_input machine) docs)))
          (subst (λ x. chain_verdict (finish_chains machine.platform.locale_compare x) ≡ 0) same
            k) in
      chains_intact v docs
        (finish_chains machine.platform.locale_compare (
          add_chain_events machine.engine v key start_chain_intake
            (map (chain_input machine) docs)))
        r refl i n

  pub checkpoint-HasPassed :
      (file : String)
      → args.checkpoint ≡ some file
      → run_verify_checkpoint machine key file inputs ≡ 0
      → HasPassed "verify-checkpoint"
  unfolding run_verify_checkpoint
  checkpoint-HasPassed file f e =
      let (v, docs, r, k) = exit_of_loaded-IsRead machine _ inputs passes e in
      elim (Option-cases (machine.read_json_file file)) [
        | inl bad ↦ cc (rw bad at k)
        | inr (document, p) ↦ elim (Option-cases machine.create_checkpoint_validator) [
          | inl bad ↦ cc (rw (p, bad) at k)
          | inr (w, c) ↦
              let (report, s, o) =
                checkpoint_verdict_lem (checkpoint_report machine key v w docs document)
                  (rw (p, c) at k) in
              archive_agrees v w docs file document report f p c r s o
        ]
      ]

  one_event :
      (file : String) (v : Validator) (docs : List EventDocument)
      → args.proof ≡ some file
      → IsRead machine true inputs v docs
      → one_proof machine key file v docs ≡ 0
      → HasPassed "verify-proof"
  one_event file v [] f r k = cc
  one_event file v (d ∷ e ∷ ds) f r k = cc
  one_event file v (d ∷ []) f r k = elim (Option-cases (machine.read_json_file file)) [
    | inl bad ↦ cc (rw (one_proof, bad) at k)
    | inr (document, p) ↦ elim (Option-cases machine.create_proof_validator) [
      | inl bad ↦ cc (rw (one_proof, p, bad) at k)
      | inr (w, c) ↦
          let (report, s, o) =
            proof_verdict_lem (proof_report machine key v w d document)
              (rw (one_proof, p, c) at k) in
          event_included v w d file document report f p c r s o
    ]
  ]

  pub proof-HasPassed :
      (file : String)
      → args.proof ≡ some file
      → run_verify_proof machine key file inputs ≡ 0
      → HasPassed "verify-proof"
  unfolding run_verify_proof
  proof-HasPassed file f e =
      let (v, docs, r, k) = exit_of_loaded-IsRead machine _ inputs passes e in
      one_event file v docs f r k

  pub lint-HasPassed : run_lint_privacy machine inputs ≡ 0 → HasPassed "lint-privacy"
  unfolding run_lint_privacy
  lint-HasPassed e =
      let (v, docs, r, k) = exit_of-IsRead machine _ start_lint_tally _ inputs passes e in
      all_clean v docs r (
        All-weaken (λ d. lint_event-clean machine.platform d.event (display_label machine d) v) docs
          (lint_verdict-All machine.platform.locale_compare (lint_result machine v) docs
            start_lint_tally k))

  pub profile-HasPassed :
      (name : String) (profile : ProfileDefinition)
      → args.profile ≡ some name
      → machine.load_profile name ≡ some profile
      → checked machine inputs (some profile) ≡ 0
      → HasPassed "check-profile"
  profile-HasPassed name profile n l e =
      let (v, docs, r, k) =
        exit_of-IsRead machine _ start_profile_tally profile_verdict inputs passes e in
      let (a, m) =
        profile_verdict-All (profile_result machine profile v)
          (λ d. check_profile-Consistent d.event (display_label machine d) profile v) docs
          r.some_docs k in
      none_violating v docs name profile n l r a m

  pub coverage-HasPassed :
      (name : String) (profile : ProfileDefinition)
      → args.profile ≡ some name
      → machine.load_profile name ≡ some profile
      → covered machine inputs (some profile) ≡ 0
      → HasPassed "check-coverage"
  coverage-HasPassed name profile n l e =
      let (v, docs, r, k) = exit_of_loaded-IsRead machine _ inputs passes e in
      some_governed v docs name profile n l r
        (some_names (coverage_report machine profile v docs) k)
