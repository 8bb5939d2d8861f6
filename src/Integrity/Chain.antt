-- ===== src/Integrity/Chain.antt =====
-- conformance/src/integrity/verify-chain.ts: chains of events linked by their previous hashes.
-- `String.prototype.localeCompare` is a parameter. Notes are what they report, without their text.
pub mod Verify
pub mod Intake
pub mod Intact
pub mod Order
pub mod Verdict
pub mod Links
pub mod Tamper
pub mod Report
pub mod Head
use open_audit_model.Common.{
  ℕ, ◌+◌, ◌-◌, ◌^◌, String, Bool, true, false, not, ◌||◌, Option, none, some, List, [], ◌∷◌, map,
  ltb, ◌==◌, if◌then◌else◌, is_none, value_or, length, select, head?, last?, flat_map, ◌===◌,
  distinct, collect, Sign, sign_of_difference, sort,
}
use open_audit_model.Json.{Value, nat, neg_zero, num, own, member}
use open_audit_model.Integrity.Hex.{digests_equal}
use open_audit_model.Integrity.Signature.{}
use open_audit_model.Integrity.Findings.{
  at_event, overall, FindingKind, sequence_missing, duplicate_sequence, previous_hash_missing,
  broken_link, algorithm_mismatch, Check, Finding,
}
use open_audit_model.Integrity.Event.{passed}

-- `ChainMember`
pub record ChainMember : Type 0 where
  pub label : String
  pub digest_findings : List Finding
  pub sequence : Option ℕ
  pub hash : Option String
  pub previous_hash : Option String
  pub hash_algorithm : Option String
  pub canonicalization : Option String
  pub batch_id : Option String

-- `ChainEventInput`
pub record ChainEventInput : Type 0 where
  pub label : String
  pub event : Value

-- `asSequence`; -0 is the sequence 0 wherever it is used
abbrev pub as_sequence : Value → Option ℕ
as_sequence (num (nat n)) = some n
as_sequence (num neg_zero) = some 0
as_sequence v = none

-- What `describeSequences` says: the distinct sequences in order, and how many events have none.
pub record Sequences : Type 0 where
  pub observed : List ℕ
  pub unsequenced : ℕ

abbrev pub by_number : ℕ → ℕ → Sign
by_number a b = sign_of_difference a b

abbrev pub sequences_of : List ChainMember → List ℕ
sequences_of members =
    sort by_number
      (distinct ◌==◌ (flat_map (λ m. elim m.sequence [ none ↦ [] | some n ↦ n ∷ [] ]) members))

abbrev pub describe_sequences : List ChainMember → Sequences
describe_sequences members = record {
  observed = sequences_of members;
  unsequenced = length members - length (select (λ m. not (is_none m.sequence)) members);
}

-- `last - first + 1 === sequences.length`
abbrev pub is_contiguous : ℕ → ℕ → List ℕ → Bool
is_contiguous first last sequences = (last - first) + 1 == length sequences

-- One sealing batch in a chain, and the other chains that declare it.
pub record BatchReport : Type 0 where
  pub batch_id : String
  pub events : ℕ
  pub sequences : Sequences
  pub elsewhere : List String

-- `Note`
pub data Note : Type 0 where
  not_genesis : String → Note
  not_contiguous : List ℕ → Note
  batches_declared : List BatchReport → ℕ → Note

-- `ChainVerificationResult`
pub record ChainResult : Type 0 where
  pub chain_id : String
  pub event_count : ℕ
  pub first_sequence : Option ℕ
  pub last_sequence : Option ℕ
  pub head_hash : Option String
  pub intact : Bool
  pub checks : List Check
  pub findings : List Finding
  pub notes : List Note

abbrev pub max_safe_integer : ℕ
max_safe_integer = 2 ^ 53 - 1

abbrev pub is_empty {ℓ} : {A : Type ℓ} → List A → Bool
is_empty [] = true
is_empty (x ∷ xs) = false

-- A passed check, where its condition holds.
abbrev pub passes : Bool → Check → List Check
passes true check = check ∷ []
passes false check = []

-- The findings of every event's own digest.
abbrev pub digest_findings_of : List ChainMember → List Finding
digest_findings_of members = flat_map (λ m. m.digest_findings) members

abbrev pub algorithm_of : ChainMember → String
algorithm_of m = value_or m.hash_algorithm "(none)"

abbrev pub canonicalization_of : ChainMember → String
canonicalization_of m = value_or m.canonicalization "(none)"

-- Whether the members share one hash algorithm and one canonicalization.
abbrev pub algorithm_findings : List ChainMember → List Finding
algorithm_findings members =
    if ltb 1 (length (distinct ◌===◌ (map algorithm_of members)))
      || ltb 1 (length (distinct ◌===◌ (map canonicalization_of members)))
    then overall algorithm_mismatch ∷ []
    else []

abbrev pub sequence_findings : List ChainMember → List Finding
sequence_findings members =
    map (λ m. at_event sequence_missing m.label) (select (λ m. is_none m.sequence) members)

-- `bySequence`
abbrev pub by_sequence : List ChainMember → List (ℕ × List ChainMember)
by_sequence ordered = collect ◌==◌ (λ m. m.sequence) [] ordered

abbrev pub by_entry : (ℕ × List ChainMember) → (ℕ × List ChainMember) → Sign
by_entry a b = sign_of_difference a.0 b.0

abbrev pub duplicate_findings : List (ℕ × List ChainMember) → List Finding
duplicate_findings buckets =
    map (λ bucket. overall duplicate_sequence)
      (select (λ bucket. ltb 1 (length bucket.1)) (sort by_entry buckets))

-- The members that the loop over the links takes.
abbrev pub linkable : List ChainMember → List ChainMember
linkable ordered = select (λ m. not (is_none m.sequence)) ordered

-- The test of one link: the previous hash that a member declares against its predecessor's hash.
abbrev pub link_finding : ChainMember → ChainMember → Option FindingKind
link_finding predecessor m = elim m.previous_hash [
  | none ↦ some previous_hash_missing
  | some previous ↦ elim predecessor.hash [
    | none ↦ some broken_link
    | some hash ↦ if digests_equal previous hash then none else some broken_link
  ]
]

-- The loop over the links, after the first member.
abbrev pub link_findings_from : ChainMember → List ChainMember → List Finding
link_findings_from predecessor [] = []
link_findings_from predecessor (m ∷ ms) =
    let rest = link_findings_from m ms in
    elim (link_finding predecessor m) [ none ↦ rest | some kind ↦ at_event kind m.label ∷ rest ]

abbrev pub link_findings : List ChainMember → List Finding
link_findings [] = []
link_findings (m ∷ ms) = link_findings_from m ms

abbrev pub genesis_notes : List ChainMember → List Note
genesis_notes [] = []
genesis_notes (m ∷ ms) = if is_none m.previous_hash then [] else not_genesis m.label ∷ []

abbrev pub starts_genesis : List ChainMember → Bool
starts_genesis [] = false
starts_genesis (m ∷ ms) = is_none m.previous_hash

abbrev pub gap_notes : List ℕ → List Note
gap_notes sequences = elim (head? sequences) [
  | none ↦ []
  | some first ↦ elim (last? sequences) [
    | none ↦ []
    | some last ↦ if is_contiguous first last sequences then [] else not_contiguous sequences ∷ []
  ]
]
