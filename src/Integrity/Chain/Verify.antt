-- ===== src/Integrity/Chain/Verify.antt =====
-- conformance/src/integrity/verify-chain.ts: `verifyOneChain`, the intake and `verifyChains`.
use open_audit_model.Common.{
  ℕ, ◌-◌, String, Bool, not, ◌&&◌, Option, none, some, List, [], ◌∷◌, ◌++◌, map, ltb, ◌==◌,
  if◌then◌else◌, is_none, value_or, length, select, head?, last?, ◌===◌, members_of, collect, Sign,
  sign_of_difference, sort,
}
use open_audit_model.Integrity.Findings.{
  Check, digests_valid, links_valid, starts_at_genesis, Finding,
}
use open_audit_model.Integrity.Event.{}
use open_audit_model.Integrity.Digest.{}
use open_audit_model.Integrity.Chain.{
  sequences_of, describe_sequences, max_safe_integer, is_empty, passes, digest_findings_of,
  algorithm_findings, sequence_findings, by_sequence, duplicate_findings, linkable, link_findings,
  genesis_notes, starts_genesis, gap_notes, Note, batches_declared, ChainMember, BatchReport,
  ChainResult,
}

-- `ChainReport`
pub record ChainReport : Type 0 where
  pub chains : List ChainResult
  pub unassigned : List Finding
  pub event_count : ℕ
  pub intact : Bool

-- `ChainIntake`, without its validator and its key, which do not change
pub record ChainIntake : Type 0 where
  pub unassigned : List Finding
  pub groups : List (String × List ChainMember)
  pub event_count : ℕ

module _ (locale_compare : String → String → Sign) where
  -- `compareMembers`
  abbrev pub compare_members : ChainMember → ChainMember → Sign
  compare_members left right =
      let l = value_or left.sequence max_safe_integer in
      let r = value_or right.sequence max_safe_integer in
      if not (l == r) then sign_of_difference l r else locale_compare left.label right.label

  -- `ordered`
  abbrev pub ordered : List ChainMember → List ChainMember
  ordered members = sort compare_members members

  -- `batches`, each with the other chains that it is in
  abbrev pub batch_reports :
      String → List (String × List String) → List (String × List ChainMember) → List BatchReport
  batch_reports chain_id batch_chains batches =
      map
        (λ batch. record {
          batch_id = batch.0;
          events = length batch.1;
          sequences = describe_sequences batch.1;
          elsewhere =
              sort locale_compare (
                select (λ other. not (other === chain_id)) (members_of ◌===◌ batch_chains batch.0));
        })
        batches

  abbrev pub batch_notes : String → List (String × List String) → List ChainMember → List Note
  batch_notes chain_id batch_chains members =
      let batches = collect ◌===◌ (λ m. m.batch_id) [] members in
      if is_empty batches
      then []
      else batches_declared (batch_reports chain_id batch_chains batches)
          (length (select (λ m. is_none m.batch_id) members))
        ∷ []

  -- The findings of `verifyOneChain`, in order.
  abbrev pub chain_findings : List ChainMember → List Finding
  chain_findings members =
      digest_findings_of members
      ++ (algorithm_findings members
          ++ (sequence_findings members
              ++ (duplicate_findings (by_sequence (ordered members))
                  ++ link_findings (linkable (ordered members)))))

  abbrev pub chain_checks : List ChainMember → List ChainMember → List Check
  chain_checks members links =
      passes (is_empty (digest_findings_of members) && ltb 0 (length members))
        (digests_valid (length members))
      ++ (passes (is_empty (link_findings links) && ltb 1 (length links))
            (links_valid (length links - 1))
          ++ passes (starts_genesis links) starts_at_genesis)

  -- `headHash`: the hash of the only member at the last sequence
  abbrev pub only_hash : List ChainMember → Option String
  only_hash (m ∷ []) = m.hash
  only_hash _ = none

  abbrev pub head_hash_of : Option ℕ → List (ℕ × List ChainMember) → Option String
  head_hash_of none buckets = none
  head_hash_of (some last) buckets = only_hash (members_of ◌==◌ buckets last)

  -- `verifyOneChain`
  unfoldable pub verify_one_chain :
      String → List ChainMember → List (String × List String) → ChainResult
  verify_one_chain chain_id members batch_chains =
      let findings = chain_findings members in
      let links = linkable (ordered members) in
      let sequences = sequences_of links in
      record {
        chain_id = chain_id;
        event_count = length members;
        first_sequence = head? sequences;
        last_sequence = last? sequences;
        head_hash = head_hash_of (last? sequences) (by_sequence (ordered members));
        intact = is_empty findings;
        checks = chain_checks members links;
        findings = findings;
        notes =
            genesis_notes links
            ++ (gap_notes sequences ++ batch_notes chain_id batch_chains (ordered members));
      }
