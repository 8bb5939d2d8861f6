-- ===== src/Integrity/Checkpoint/Report.antt =====
-- What a report that agrees says of every chain that the checkpoint names.
use open_audit_model.Common.{
  String, ◌≡◌, refl, ap, ◌∙◌, Bool, true, false, ◌&&◌, Option, none, some, List, [], ◌∷◌, map,
  if◌then◌else◌, true-of-&&, ◌>>=◌, all, All, some_inj, ◌===◌, count_of, members_of, Sign,
}
use open_audit_model.Json.{Value}
use open_audit_model.Integrity.Signature.{PublicKey}
use open_audit_model.Integrity.Signature.Document.{
  check_declared_document_signature, DocumentSignature,
}
use open_audit_model.Integrity.Findings.{Validator, Finding, ValidationIssue}
use open_audit_model.Integrity.Event.{Engine}
use open_audit_model.Integrity.Chain.{is_empty, ChainEventInput, ChainResult}
use open_audit_model.Integrity.Chain.Verify.{ChainReport}
use open_audit_model.Integrity.Chain.Intake.{verify_chains}
use open_audit_model.Integrity.Checkpoint.{
  read_document, index_archive, CheckpointClaim, CheckpointDocument, ArchiveIndex,
}
use open_audit_model.Integrity.Checkpoint.Compare.{
  find_chain, compare_found, is_missing, is_agreeing, outcome_of, labels_of, compare_archive,
  signature_of, after_checkpoint_schema, verify_checkpoint, ClaimStatus, claim_agrees,
  claim_disagrees, claim_missing, agrees, disagrees, no_chain, invalid_checkpoint, ClaimResult,
  CheckpointReport, signature_findings,
}
use open_audit_model.Integrity.Checkpoint.Agreement.{compare_claim-Agrees_iff, Agrees}

module _ (locale_compare : String → String → Sign) (env : Engine) (inputs : List ChainEventInput)
    (events checkpoint : Validator) (key : Option PublicKey) where
  abbrev pub archive_of : ChainReport
  archive_of = verify_chains locale_compare env inputs events key

  abbrev pub index_of : ArchiveIndex
  index_of = index_archive inputs (labels_of archive_of.unassigned)

  -- A claim that the archive honours: it has a chain of that name, which agrees.
  pub record Honours (read : CheckpointDocument) (claim : CheckpointClaim) : Type 0 where
    pub chain : ChainResult
    pub found : find_chain archive_of.chains claim.chain_id ≡ some chain
    pub agrees_with :
        Agrees claim
          (members_of ◌===◌ index_of.verified claim.chain_id)
          (count_of index_of.unverified claim.chain_id)
          chain
          read.hash_algorithm
          read.canonicalization

  -- What an agreeing report establishes.
  pub record Established (document : Value) : Type 0 where
    pub admitted : checkpoint document ≡ []
    pub read : CheckpointDocument
    pub is_read : read_document document ≡ some read
    pub archive_intact : archive_of.intact ≡ true
    pub honoured : All (Honours read) read.claims

  claim_honoured :
      (read : CheckpointDocument) (claim : CheckpointClaim) (o : Option ChainResult)
      → find_chain archive_of.chains claim.chain_id ≡ o
      → is_agreeing
          (compare_found index_of read.hash_algorithm read.canonicalization claim o).status
        ≡ true
      → Honours read claim
  claim_honoured read claim none f e = cc
  claim_honoured read claim (some chain) f e = record {
    chain = chain;
    found = f;
    agrees_with =
        (compare_claim-Agrees_iff claim (members_of ◌===◌ index_of.verified claim.chain_id)
            (count_of index_of.unverified claim.chain_id) chain read.hash_algorithm
            read.canonicalization).0
          (status_agrees _ e);
  }
    where
      status_agrees : (s : ClaimStatus) → is_agreeing s ≡ true → s ≡ claim_agrees
      status_agrees claim_agrees e = refl
      status_agrees claim_disagrees e = cc
      status_agrees claim_missing e = cc

  abbrev compared : CheckpointDocument → List CheckpointClaim → List ClaimResult
  compared read claims =
      map
        (λ claim.
          compare_found index_of read.hash_algorithm read.canonicalization claim
            (find_chain archive_of.chains claim.chain_id))
        claims

  claims_honoured :
      (read : CheckpointDocument) (claims : List CheckpointClaim)
      → all (λ c. is_agreeing c.status) (compared read claims) ≡ true
      → All (Honours read) claims
  claims_honoured read [] e = tt
  claims_honoured read (claim ∷ claims) e =
      let (a, b) = true-of-&& _ _ e in
      (
        claim_honoured read claim (find_chain archive_of.chains claim.chain_id) refl a,
        claims_honoured read claims b,
      )

  outcome_agrees :
      (fs : List Finding) (intact : Bool) (chains : List ClaimResult)
      → outcome_of fs intact chains ≡ agrees
      → (intact ≡ true) × (all (λ c. is_agreeing c.status) chains ≡ true)
  outcome_agrees fs intact chains e =
      go (all (λ c. is_missing c.status) chains) (is_empty fs) intact
        (all (λ c. is_agreeing c.status) chains) e
    where
      go :
          (m f i a : Bool)
          → (if m then no_chain else if f && (i && a) then agrees else disagrees) ≡ agrees
          → (i ≡ true) × (a ≡ true)
      go true f i a e = cc
      go false false i a e = cc
      go false true false a e = cc
      go false true true false e = cc
      go false true true true e = (refl, refl)

  from_comparison :
      (document : Value) (report : CheckpointReport) (s : Option (Option DocumentSignature))
      (o : Option CheckpointDocument)
      → checkpoint document ≡ []
      → read_document document ≡ o
      → (s >>= λ signature. o >>= λ read. some (
          compare_archive locale_compare env inputs events checkpoint key signature read
            archive_of))
        ≡ some report
      → report.outcome ≡ agrees
      → Established document
  from_comparison document report none o c r e q = cc
  from_comparison document report (some s) none c r e q = cc
  from_comparison document report (some s) (some read) c r e q =
      let same = some_inj e in
      let (i, a) =
        outcome_agrees (signature_findings s) archive_of.intact (compared read read.claims)
          (ap (λ x. x.outcome) same ∙ q) in
      record {
        admitted = c;
        read = read;
        is_read = r;
        archive_intact = i;
        honoured = claims_honoured read read.claims a;
      }

  -- What a checkpoint shows. If the comparison with a checkpoint agrees, then the checkpoint is valid
  -- under its schema, the whole archive is intact, and for every chain that the checkpoint names the
  -- archive has a chain of that name that reaches the recorded head.
  pub verify_checkpoint-agrees :
      (document : Value) (report : CheckpointReport)
      → verify_checkpoint locale_compare env inputs events checkpoint key document ≡ some report
      → report.outcome ≡ agrees
      → Established document
  unfolding verify_checkpoint
  verify_checkpoint-agrees document report e q = go (checkpoint document) refl e
    where
      go :
          (issues : List ValidationIssue)
          → checkpoint document ≡ issues
          → after_checkpoint_schema locale_compare env inputs events checkpoint key document issues
            ≡ some report
          → Established document
      go [] c e =
          from_comparison document report
            (signature_of locale_compare env inputs events checkpoint key
              (check_declared_document_signature env.verify env.package_canonicalize document key))
            (read_document document) c refl e q
      go (i ∷ is) c e = absurd (refuses (ap (λ x. x.outcome) (some_inj e) ∙ q))
        where
          refuses : invalid_checkpoint ≡ agrees → ⊥
          refuses p = cc
