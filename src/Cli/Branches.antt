-- ===== src/Cli/Branches.antt =====
-- The commands by cases.
use open_audit_model.Common.{ℕ, String, ◌≡◌, inl, inr, true, Option, List, Bool-cases, ◌===◌}
use open_audit_model.Integrity.Signature.{PublicKey}
use open_audit_model.Cli.{exit_error, Machine}
use open_audit_model.Cli.Commands.{
  run_validate, run_verify_integrity, run_verify_chain, run_verify_checkpoint, run_verify_proof,
  run_lint_privacy, run_check_profile, run_check_coverage,
}
use open_audit_model.Cli.Run.{with_file, dispatch, Arguments}

module _ (machine : Machine) (args : Arguments) (command : String) (inputs : List String)
    (key : Option PublicKey) where
  abbrev Case : (ℕ → Type 0) → String → ℕ → Type 0
  Case P name code = (command === name) ≡ true → P code

  -- What holds of the exit code of each command holds of the one that is named.
  pub dispatch_by :
      (P : ℕ → Type 0)
      → Case P "validate" (run_validate machine inputs)
      → Case P "verify-integrity" (run_verify_integrity machine key inputs)
      → Case P "verify-chain" (run_verify_chain machine key inputs)
      → Case P "verify-checkpoint" (
          with_file machine args.checkpoint (λ file. run_verify_checkpoint machine key file inputs))
      → Case P "verify-proof"
          (with_file machine args.proof (λ file. run_verify_proof machine key file inputs))
      → Case P "lint-privacy" (run_lint_privacy machine inputs)
      → Case P "check-profile" (run_check_profile machine args.profile inputs)
      → Case P "check-coverage" (run_check_coverage machine args.profile inputs)
      → P exit_error
      → P (dispatch machine args command inputs key)
  dispatch_by P c1 c2 c3 c4 c5 c6 c7 c8 other = elim (Bool-cases (command === "validate")) [
    | inl h ↦ rw h (c1 h)
    | inr n1 ↦ elim (Bool-cases (command === "verify-integrity")) [
      | inl h ↦ rw (n1, h) (c2 h)
      | inr n2 ↦ elim (Bool-cases (command === "verify-chain")) [
        | inl h ↦ rw (n1, n2, h) (c3 h)
        | inr n3 ↦ elim (Bool-cases (command === "verify-checkpoint")) [
          | inl h ↦ rw (n1, n2, n3, h) (c4 h)
          | inr n4 ↦ elim (Bool-cases (command === "verify-proof")) [
            | inl h ↦ rw (n1, n2, n3, n4, h) (c5 h)
            | inr n5 ↦ elim (Bool-cases (command === "lint-privacy")) [
              | inl h ↦ rw (n1, n2, n3, n4, n5, h) (c6 h)
              | inr n6 ↦ elim (Bool-cases (command === "check-profile")) [
                | inl h ↦ rw (n1, n2, n3, n4, n5, n6, h) (c7 h)
                | inr n7 ↦ elim (Bool-cases (command === "check-coverage")) [
                  | inl h ↦ rw (n1, n2, n3, n4, n5, n6, n7, h) (c8 h)
                  | inr n8 ↦ rw (n1, n2, n3, n4, n5, n6, n7, n8) other
                ]
              ]
            ]
          ]
        ]
      ]
    ]
  ]
