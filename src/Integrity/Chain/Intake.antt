-- ===== src/Integrity/Chain/Intake.antt =====
-- conformance/src/integrity/verify-chain.ts: the intake of events and `verifyChains`.
use open_audit_model.Common.{
  ◌+◌, String, ◌⊎◌, inl, inr, false, ◌&&◌, Option, none, some, List, [], ◌∷◌, ◌++◌, map,
  if◌then◌else◌, all, has, add_to_group, members_of, Sign, sort, ◌===◌,
}
use open_audit_model.Json.{member, as_string, Fields}
use open_audit_model.Integrity.Signature.{PublicKey}
use open_audit_model.Integrity.Findings.{
  at_event, Validator, FindingKind, schema_invalid, integrity_missing, chain_id_missing,
  ValidationIssue,
}
use open_audit_model.Integrity.Event.{read_integrity, verify_event_integrity, Engine}
use open_audit_model.Integrity.Digest.{property}
use open_audit_model.Integrity.Chain.{
  as_sequence, is_empty, ChainMember, ChainEventInput, ChainResult,
}
use open_audit_model.Integrity.Chain.Verify.{verify_one_chain, ChainReport, ChainIntake}

-- `startChainIntake`
abbrev pub start_chain_intake : ChainIntake
start_chain_intake = record { unassigned = []; groups = []; event_count = 0 }

-- An event that belongs to no chain.
abbrev pub leave_out : ChainIntake → FindingKind → String → ChainIntake
leave_out intake kind label = record {
  unassigned = intake.unassigned ++ at_event kind label ∷ [];
  groups = intake.groups;
  event_count = intake.event_count + 1;
}

-- A member added to its chain.
abbrev pub put_member : ChainIntake → String → ChainMember → ChainIntake
put_member intake chain_id m = record {
  unassigned = intake.unassigned;
  groups = add_to_group ◌===◌ chain_id m intake.groups;
  event_count = intake.event_count + 1;
}

module _ (env : Engine) (validator : Validator) (key : Option PublicKey) where
  -- The member that an event is reduced to.
  abbrev pub chain_member : ChainEventInput → Fields → ChainMember
  chain_member input integrity =
      let result = verify_event_integrity env input.event input.label validator false key in
      record {
        label = input.label;
        digest_findings = if result.verified then [] else result.findings;
        sequence = as_sequence (property input.event "sequence");
        hash = as_string (member integrity "hash");
        previous_hash = as_string (member integrity "previousHash");
        hash_algorithm = as_string (member integrity "hashAlgorithm");
        canonicalization = as_string (member integrity "canonicalization");
        batch_id = as_string (member integrity "batchId");
      }

  -- What an event is for the intake: a member of a chain, or why it is not.
  abbrev pub assign_event :
      ChainEventInput → List ValidationIssue → FindingKind ⊎ (String × ChainMember)
  assign_event input (i ∷ is) = inl schema_invalid
  assign_event input [] = elim (read_integrity input.event) [
    | none ↦ inl integrity_missing
    | some integrity ↦ elim (as_string (member integrity "chainId")) [
      | none ↦ inl chain_id_missing
      | some chain_id ↦ inr (chain_id, chain_member input integrity)
    ]
  ]

  abbrev pub take_in : ChainIntake → String → FindingKind ⊎ (String × ChainMember) → ChainIntake
  take_in intake label (inl kind) = leave_out intake kind label
  take_in intake label (inr (chain_id, m)) = put_member intake chain_id m

  -- `addChainEvent`
  unfoldable pub add_chain_event : ChainIntake → ChainEventInput → ChainIntake
  add_chain_event intake input =
      take_in intake input.label (assign_event input (validator input.event))

  -- the loop of `verifyChains`
  abbrev pub add_chain_events : ChainIntake → List ChainEventInput → ChainIntake
  add_chain_events intake [] = intake
  add_chain_events intake (input ∷ inputs) = add_chain_events (add_chain_event intake input) inputs

-- `seen.add(chainId)` for every member with a batch
abbrev pub add_batches :
    String → List ChainMember → List (String × List String) → List (String × List String)
add_batches chain_id [] seen = seen
add_batches chain_id (m ∷ ms) seen = add_batches chain_id ms (elim m.batch_id [
  | none ↦ seen
  | some batch ↦
      if has ◌===◌ (members_of ◌===◌ seen batch) chain_id
      then seen
      else add_to_group ◌===◌ batch chain_id seen
])

-- `batchChains`
abbrev pub batch_chains_of :
    List (String × List ChainMember) → List (String × List String) → List (String × List String)
batch_chains_of [] seen = seen
batch_chains_of ((chain_id, members) ∷ groups) seen =
    batch_chains_of groups (add_batches chain_id members seen)

module _ (locale_compare : String → String → Sign) where
  abbrev pub by_chain_id : (String × List ChainMember) → (String × List ChainMember) → Sign
  by_chain_id left right = locale_compare left.0 right.0

  abbrev pub chain_results : List (String × List ChainMember) → List ChainResult
  chain_results groups =
      map (λ g. verify_one_chain locale_compare g.0 g.1 (batch_chains_of groups []))
        (sort by_chain_id groups)

  -- `finishChains`
  unfoldable pub finish_chains : ChainIntake → ChainReport
  finish_chains intake = record {
    chains = chain_results intake.groups;
    unassigned = intake.unassigned;
    event_count = intake.event_count;
    intact = is_empty intake.unassigned && all (λ c. c.intact) (chain_results intake.groups);
  }

  -- `verifyChains`
  unfoldable pub verify_chains :
      Engine → List ChainEventInput → Validator → Option PublicKey → ChainReport
  verify_chains env inputs validator key =
      finish_chains (add_chain_events env validator key start_chain_intake inputs)
