-- ===== src/Cli/Outcomes.antt =====
-- What a verdict of 0 says of the report that it is on.
use open_audit_model.Common.{
  ◌<◌, ◌≡◌, refl, inl, inr, true, Option, some, arith, ◌==◌, Bool-cases, length, none,
}
use open_audit_model.Integrity.Chain.Verify.{ChainReport}
use open_audit_model.Integrity.Checkpoint.Compare.{
  agrees, CheckpointReport, CheckpointOutcome, disagrees, no_chain, invalid_checkpoint,
}
use open_audit_model.Integrity.Proof.{
  proof_verified, ProofReport, ProofOutcome, proof_failed, no_leaf, invalid_proof,
}
use open_audit_model.Profiles.Coverage.{ProfileCoverage}
use open_audit_model.Cli.{
  chain_verdict, exit_ok, exit_invalid, exit_error, exit_no_verdict, checkpoint_verdict,
  proof_verdict, coverage_verdict,
}

pub chain_verdict_lem :
    (report : ChainReport)
    → chain_verdict report ≡ 0
    → (report.intact ≡ true) × (0 < length report.chains)
chain_verdict_lem report e = elim (Bool-cases (length report.chains == 0)) [
  | inl empty ↦ cc (rw empty at e)
  | inr something ↦ elim (Bool-cases report.intact) [
    | inl intact ↦ (intact, ground arith)
    | inr broken ↦ cc (rw (something, broken) at e)
  ]
]

pub checkpoint_verdict_lem :
    (o : Option CheckpointReport)
    → checkpoint_verdict o ≡ 0
    → (report : CheckpointReport) × (o ≡ some report) × (report.outcome ≡ agrees)
checkpoint_verdict_lem none e = cc
checkpoint_verdict_lem (some report) e = (report, refl, outcome report.outcome e)
  where
    outcome :
        (o : CheckpointOutcome)
        → elim o [
          | invalid_checkpoint ↦ exit_error
          | no_chain ↦ exit_no_verdict
          | agrees ↦ exit_ok
          | disagrees ↦ exit_invalid
        ]
          ≡ 0
        → o ≡ agrees
    outcome agrees e = refl
    outcome invalid_checkpoint e = cc
    outcome no_chain e = cc
    outcome disagrees e = cc

pub proof_verdict_lem :
    (o : Option ProofReport)
    → proof_verdict o ≡ 0
    → (report : ProofReport) × (o ≡ some report) × (report.outcome ≡ proof_verified)
proof_verdict_lem none e = cc
proof_verdict_lem (some report) e = (report, refl, outcome report.outcome e)
  where
    outcome :
        (o : ProofOutcome)
        → elim o [
          | invalid_proof ↦ exit_error
          | no_leaf ↦ exit_no_verdict
          | proof_verified ↦ exit_ok
          | proof_failed ↦ exit_invalid
        ]
          ≡ 0
        → o ≡ proof_verified
    outcome proof_verified e = refl
    outcome invalid_proof e = cc
    outcome no_leaf e = cc
    outcome proof_failed e = cc

pub some_names : (c : ProfileCoverage) → coverage_verdict c ≡ 0 → 0 < c.governed_names
some_names c e = elim (Bool-cases (c.governed_names == 0)) [
  | inl none_of ↦ cc (rw none_of at e)
  | inr some_of ↦ ground arith
]
