-- ===== src/Integrity/Checkpoint.antt =====
-- conformance/src/integrity/verify-checkpoint.ts: an archive compared with a chain checkpoint.
pub mod Compare
pub mod Agreement
pub mod Report
use open_audit_model.Common.{
  ℕ, String, not, Option, none, some, List, [], ◌∷◌, if◌then◌else◌, ◌>>=◌, ◌===◌, includes, Counts,
  count_up, has, add_to_group,
}
use open_audit_model.Json.{
  Value, Number, same_number, nat, num, str, obj, arr, items, member, as_string, as_record, Fields,
}
use open_audit_model.Integrity.Hex.{}
use open_audit_model.Integrity.Digest.{property}
use open_audit_model.Integrity.Signature.{}
use open_audit_model.Integrity.Signature.Document.{}
use open_audit_model.Integrity.Findings.{}
use open_audit_model.Integrity.Event.{read_integrity}
use open_audit_model.Integrity.Chain.{as_sequence, ChainEventInput}
use open_audit_model.Integrity.Chain.Verify.{}
use open_audit_model.Integrity.Chain.Intake.{}

-- `CheckpointClaim`
pub record CheckpointClaim : Type 0 where
  pub chain_id : String
  pub head_sequence : ℕ
  pub head_hash : String
  pub event_count : Option Number

-- What the comparison reads of a checkpoint that its schema admits.
pub record CheckpointDocument : Type 0 where
  pub hash_algorithm : String
  pub canonicalization : String
  pub claims : List CheckpointClaim

-- `IndexedEvent`
pub record IndexedEvent : Type 0 where
  pub label : String
  pub sequence : ℕ
  pub hash : Option String
  pub hash_algorithm : Option String
  pub canonicalization : Option String

-- `typeof eventCount === "number"`
abbrev pub as_number : Value → Option Number
as_number (num n) = some n
as_number v = none

-- One entry of `readClaims`; `none` where a cast of the source does not hold, which the schema of
-- checkpoints excludes.
abbrev pub read_claim : Value → Option CheckpointClaim
read_claim entry = as_string (property entry "chainId") >>= λ chain_id.
    as_sequence (property (property entry "head") "sequence") >>= λ sequence.
    as_string (property (property entry "head") "hash") >>= λ hash. some (record {
      chain_id = chain_id;
      head_sequence = sequence;
      head_hash = hash;
      event_count = as_number (property entry "eventCount");
    })

abbrev pub read_claims : List Value → Option (List CheckpointClaim)
read_claims [] = some []
read_claims (entry ∷ entries) =
    read_claim entry >>= λ claim. read_claims entries >>= λ claims. some (claim ∷ claims)

-- The entries: `chains`, or the document itself.
abbrev pub entries_of : Value → Value → List Value
entries_of document (arr xs) = items xs
entries_of document v = document ∷ []

abbrev pub read_document : Value → Option CheckpointDocument
read_document document =
    read_claims (entries_of document (property document "chains")) >>= λ claims.
    as_string (property document "hashAlgorithm") >>= λ algorithm.
    as_string (property document "canonicalization") >>= λ canonicalization.
    some
      (record { hash_algorithm = algorithm; canonicalization = canonicalization; claims = claims })

-- The two maps of `indexArchive`.
pub record ArchiveIndex : Type 0 where
  pub verified : List (String × List IndexedEvent)
  pub unverified : Counts

-- The chain that an event declares.
abbrev pub chain_of : Value → Option String
chain_of event = read_integrity event >>= λ integrity. as_string (member integrity "chainId")

abbrev pub indexed_event : ChainEventInput → Fields → ℕ → IndexedEvent
indexed_event input integrity sequence = record {
  label = input.label;
  sequence = sequence;
  hash = as_string (member integrity "hash");
  hash_algorithm = as_string (member integrity "hashAlgorithm");
  canonicalization = as_string (member integrity "canonicalization");
}

-- What is indexed of an event that has an integrity object, a chain and a sequence.
abbrev pub entry_of : ChainEventInput → Option (String × IndexedEvent)
entry_of input = read_integrity input.event >>= λ integrity.
    as_string (member integrity "chainId") >>= λ chain_id.
    as_sequence (property input.event "sequence") >>= λ sequence.
    some (chain_id, indexed_event input integrity sequence)

abbrev pub index_unverified : ArchiveIndex → Option String → ArchiveIndex
index_unverified index none = index
index_unverified index (some chain_id) = record {
  verified = index.verified;
  unverified = count_up chain_id index.unverified;
}

abbrev pub index_verified : ArchiveIndex → Option (String × IndexedEvent) → ArchiveIndex
index_verified index none = index
index_verified index (some (chain_id, event)) = record {
  verified = add_to_group ◌===◌ chain_id event index.verified;
  unverified = index.unverified;
}

-- The loop of `indexArchive`.
abbrev pub index_from : ArchiveIndex → List String → List ChainEventInput → ArchiveIndex
index_from index unassigned [] = index
index_from index unassigned (input ∷ inputs) =
    index_from
      (if includes unassigned input.label
        then index_unverified index (chain_of input.event)
        else index_verified index (entry_of input))
      unassigned inputs

-- `indexArchive`
abbrev pub index_archive : List ChainEventInput → List String → ArchiveIndex
index_archive inputs unassigned =
    index_from (record { verified = []; unverified = [] }) unassigned inputs
