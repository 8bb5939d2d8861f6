-- ===== src/Integrity/Checkpoint/Compare.antt =====
-- conformance/src/integrity/verify-checkpoint.ts: `compareClaim` and `verifyCheckpoint`.
use open_audit_model.Common.{
  ℕ, suc, String, Bool, true, false, not, ◌&&◌, Option, none, some, List, [], ◌∷◌, ◌++◌, map, ltb,
  leb, ◌==◌, if◌then◌else◌, ◌>>=◌, length, any, all, select, flat_map, ◌===◌, count_of, is_key,
  members_of, Sign, zero,
}
use open_audit_model.Json.{Value, Number, same_number, nat}
use open_audit_model.Integrity.Hex.{is_hex_digest, digests_equal}
use open_audit_model.Integrity.Signature.{PublicKey}
use open_audit_model.Integrity.Signature.Document.{
  check_declared_document_signature, DocumentCheck, undeclared_signature, throws_uncanonical,
  declared_result, DocumentSignature,
}
use open_audit_model.Integrity.Findings.{
  at_event, overall, Validator, checkpoint_schema_invalid, checkpoint_chain_missing,
  checkpoint_algorithm_mismatch, tail_truncated, checkpoint_head_mismatch, checkpoint_head_missing,
  checkpoint_count_mismatch, checkpoint_members_unverified, Check, head_matches, count_matches,
  Finding, ValidationIssue,
}
use open_audit_model.Integrity.Event.{Engine}
use open_audit_model.Integrity.Chain.{is_empty, passes, ChainEventInput, ChainResult}
use open_audit_model.Integrity.Chain.Verify.{ChainReport}
use open_audit_model.Integrity.Chain.Intake.{verify_chains}
use open_audit_model.Integrity.Checkpoint.{
  read_document, index_archive, CheckpointClaim, CheckpointDocument, IndexedEvent, ArchiveIndex,
}

-- `CheckpointChainStatus`
pub data ClaimStatus : Type 0 where
  claim_agrees claim_disagrees claim_missing : ClaimStatus

-- `CheckpointChainResult`; the note is how many events the checkpoint does not cover
pub record ClaimResult : Type 0 where
  pub claim : CheckpointClaim
  pub status : ClaimStatus
  pub chain : Option ChainResult
  pub checks : List Check
  pub findings : List Finding
  pub not_covered : ℕ

-- `CheckpointOutcome`
pub data CheckpointOutcome : Type 0 where
  agrees disagrees no_chain invalid_checkpoint : CheckpointOutcome

-- `CheckpointReport`, without the anchor and the description, which are only repeated
pub record CheckpointReport : Type 0 where
  pub outcome : CheckpointOutcome
  pub signature : Option DocumentSignature
  pub findings : List Finding
  pub archive : Option ChainReport
  pub chains : List ClaimResult

-- `head.hashAlgorithm !== hashAlgorithm || head.canonicalization !== canonicalization`, negated
abbrev pub same_sealing : IndexedEvent → String → String → Bool
same_sealing head algorithm canonicalization =
    is_key ◌===◌ algorithm head.hash_algorithm
    && is_key ◌===◌ canonicalization head.canonicalization

-- An event has the recorded hash, in the accepted encoding.
abbrev pub matches_head : String → IndexedEvent → Bool
matches_head head_hash event = elim event.hash [
  | none ↦ false
  | some hash ↦ is_hex_digest hash && (is_hex_digest head_hash && digests_equal hash head_hash)
]

abbrev pub at_sequence : ℕ → List IndexedEvent → List IndexedEvent
at_sequence n events = select (λ event. event.sequence == n) events

abbrev pub up_to : ℕ → List IndexedEvent → ℕ
up_to n events = length (select (λ event. leb event.sequence n) events)

-- The findings where no event stands at the head.
abbrev pub absent_findings : ℕ → ℕ → Option ℕ → List Finding
absent_findings (suc unverified) head last = []
absent_findings zero head none = overall checkpoint_head_missing ∷ []
absent_findings zero head (some last) =
    if ltb last head then overall tail_truncated ∷ [] else overall checkpoint_head_missing ∷ []

abbrev pub count_agrees : Option Number → ℕ → Bool
count_agrees none counted = true
count_agrees (some n) counted = same_number (nat counted) n

abbrev pub count_findings : ℕ → Option Number → ℕ → List Finding
count_findings (suc unverified) stated counted = []
count_findings zero stated counted =
    if count_agrees stated counted then [] else overall checkpoint_count_mismatch ∷ []

abbrev pub count_checks : ℕ → Option Number → ℕ → List Check
count_checks (suc unverified) stated counted = []
count_checks zero none counted = []
count_checks zero (some n) counted =
    if same_number (nat counted) n then count_matches counted ∷ [] else []

abbrev pub unverified_findings : ℕ → List Finding
unverified_findings zero = []
unverified_findings (suc n) = overall checkpoint_members_unverified ∷ []

module _ (claim : CheckpointClaim) (events : List IndexedEvent) (unverified : ℕ) where
  abbrev pub head_matches_any : Bool
  head_matches_any = any (matches_head claim.head_hash) (at_sequence claim.head_sequence events)

  -- The findings before those about unverified members.
  abbrev pub head_findings : List IndexedEvent → Option ℕ → String → String → List Finding
  head_findings [] last algorithm canonicalization =
      absent_findings unverified claim.head_sequence last
  head_findings (head ∷ others) last algorithm canonicalization =
      if not (same_sealing head algorithm canonicalization)
      then overall checkpoint_algorithm_mismatch ∷ []
      else (if head_matches_any then [] else overall checkpoint_head_mismatch ∷ [])
        ++ count_findings unverified claim.event_count (up_to claim.head_sequence events)

  abbrev pub head_checks : List IndexedEvent → String → String → List Check
  head_checks [] algorithm canonicalization = []
  head_checks (head ∷ others) algorithm canonicalization =
      if not (same_sealing head algorithm canonicalization)
      then []
      else passes head_matches_any (head_matches claim.head_sequence)
        ++ count_checks unverified claim.event_count (up_to claim.head_sequence events)

  -- `findings` of `compareClaim`
  abbrev pub claim_findings : Option ℕ → String → String → List Finding
  claim_findings last algorithm canonicalization =
      head_findings (at_sequence claim.head_sequence events) last algorithm canonicalization
      ++ unverified_findings unverified

  -- `compareClaim`
  unfoldable pub compare_claim : ChainResult → String → String → ClaimResult
  compare_claim chain algorithm canonicalization =
      let findings = claim_findings chain.last_sequence algorithm canonicalization in
      record {
        claim = claim;
        status =
            if chain.intact && (is_empty findings && unverified == 0)
            then claim_agrees
            else claim_disagrees;
        chain = some chain;
        checks = head_checks (at_sequence claim.head_sequence events) algorithm canonicalization;
        findings = findings;
        not_covered = length (select (λ event. ltb claim.head_sequence event.sequence) events);
      }

-- `archive.chains.find(…)`
abbrev pub find_chain : List ChainResult → String → Option ChainResult
find_chain [] chain_id = none
find_chain (c ∷ cs) chain_id = if c.chain_id === chain_id then some c else find_chain cs chain_id

abbrev pub compare_found :
    ArchiveIndex → String → String → CheckpointClaim → Option ChainResult → ClaimResult
compare_found index algorithm canonicalization claim none = record {
  claim = claim;
  status = claim_missing;
  chain = none;
  checks = [];
  findings = overall checkpoint_chain_missing ∷ [];
  not_covered = 0;
}
compare_found index algorithm canonicalization claim (some chain) =
    compare_claim claim (members_of ◌===◌ index.verified claim.chain_id)
      (count_of index.unverified claim.chain_id) chain algorithm canonicalization

abbrev pub is_missing : ClaimStatus → Bool
is_missing claim_missing = true
is_missing s = false

abbrev pub is_agreeing : ClaimStatus → Bool
is_agreeing claim_agrees = true
is_agreeing s = false

-- `outcome`
abbrev pub outcome_of : List Finding → Bool → List ClaimResult → CheckpointOutcome
outcome_of findings intact chains =
    if all (λ c. is_missing c.status) chains
    then no_chain
    else if is_empty findings && (intact && all (λ c. is_agreeing c.status) chains)
    then agrees
    else disagrees

abbrev pub labels_of : List Finding → List String
labels_of findings = flat_map (λ f. elim f.label [ none ↦ [] | some label ↦ label ∷ [] ]) findings

abbrev pub signature_findings : Option DocumentSignature → List Finding
signature_findings none = []
signature_findings (some s) = elim s.finding [
  | none ↦ []
  | some kind ↦ at_event kind "checkpoint" ∷ []
]

module _ (locale_compare : String → String → Sign) (env : Engine) (inputs : List ChainEventInput)
    (events checkpoint : Validator) (key : Option PublicKey) where
  -- The comparison, after the document and its signature were read.
  abbrev pub compare_archive :
      Option DocumentSignature → CheckpointDocument → ChainReport → CheckpointReport
  compare_archive signature document archive =
      let index = index_archive inputs (labels_of archive.unassigned) in
      let chains =
        map
          (λ claim.
            compare_found index document.hash_algorithm document.canonicalization claim
              (find_chain archive.chains claim.chain_id))
          document.claims in
      record {
        outcome = outcome_of (signature_findings signature) archive.intact chains;
        signature = signature;
        findings = signature_findings signature;
        archive = some archive;
        chains = chains;
      }

  -- What the signature check leaves; `none` is its throw.
  abbrev pub signature_of : DocumentCheck → Option (Option DocumentSignature)
  signature_of undeclared_signature = some none
  signature_of throws_uncanonical = none
  signature_of (declared_result s) = some (some s)

  abbrev pub after_checkpoint_schema : Value → List ValidationIssue → Option CheckpointReport
  after_checkpoint_schema document (issue ∷ issues) = some (record {
    outcome = invalid_checkpoint;
    signature = none;
    findings = at_event checkpoint_schema_invalid "checkpoint" ∷ [];
    archive = none;
    chains = [];
  })
  after_checkpoint_schema document [] =
      signature_of
        (check_declared_document_signature env.verify env.package_canonicalize document key)
      >>= λ signature. read_document document >>= λ read.
          some (compare_archive signature read (verify_chains locale_compare env inputs events key))

  -- `verifyCheckpoint`; `none` where it throws, or where a cast of the source does not hold
  unfoldable pub verify_checkpoint : Value → Option CheckpointReport
  verify_checkpoint document = after_checkpoint_schema document (checkpoint document)
