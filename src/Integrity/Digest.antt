-- ===== src/Integrity/Digest.antt =====
-- conformance/src/integrity/digest.ts: the digest input, the digest of an event, and sealing. The
-- hash functions and the `canonicalize` package are parameters.
pub mod Sealing
use open_audit_model.Common.{
  String, not, none, some, List, [], ◌∷◌, if◌then◌else◌, any, ◌===◌, utf8,
}
use open_audit_model.Json.{Value, delete, assign, member, undef, str, obj, Fields, end, field}
use open_audit_model.Integrity.Types.{Hash, HashAlgorithm, supported_hash_algorithm}
use open_audit_model.Integrity.Hex.{to_hex}
use open_audit_model.Integrity.Canonicalize.{
  CanonicalizationError, Package, canonicalize, canonical, throws,
}

-- `DIGEST_EXCLUDED_POINTERS`, as the members of `integrity` that they name
abbrev pub digest_excluded : List String
digest_excluded = "hash" ∷ "signature" ∷ []

-- `delete integrityRecord[member]` for each excluded pointer
abbrev pub without_excluded : List String → Fields → Fields
without_excluded [] fs = fs
without_excluded (k ∷ ks) fs = without_excluded ks (delete k fs)

abbrev pub strip_integrity : Value → Value
strip_integrity (obj fs) = obj (without_excluded digest_excluded fs)
strip_integrity v = v

-- The property `integrity` of an object, changed in place.
abbrev pub strip_fields : Fields → Fields
strip_fields end = end
strip_fields (field k v fs) =
    if k === "integrity" then field k (strip_integrity v) fs else field k v (strip_fields fs)

-- `buildDigestInput`; the clone is the value itself, since values here do not change
unfoldable pub build_digest_input : Value → Value
build_digest_input (obj fs) = obj (strip_fields fs)
build_digest_input v = v

-- What `calculateDigest` returns or throws.
pub data Digested : Type 0 where
  digest : String → Digested
  unsupported : String → Digested
  uncanonical : CanonicalizationError → Digested

-- Why `sealEvent` throws.
pub data SealFailure : Type 0 where
  no_integrity no_canonicalization no_algorithm : SealFailure
  unsupported_hash : String → SealFailure
  not_canonical : CanonicalizationError → SealFailure

pub data Sealed : Type 0 where
  sealed : Value → Sealed
  cannot_seal : SealFailure → Sealed

-- `event?.["integrity"]` on any value
abbrev pub property : Value → String → Value
property (obj fs) k = member fs k
property v k = undef

module _ (h : Hash) (pkg : Package) where
  -- `createHash(…).update(canonicalBytes(buildDigestInput(event))).digest("hex")`
  unfoldable pub digest_with : HashAlgorithm → Value → Digested
  digest_with a event = elim (canonicalize pkg (build_digest_input event)) [
    | throws e ↦ uncanonical e
    | canonical text ↦ digest (to_hex (h.digest a (utf8 text)))
  ]

  -- `calculateDigest`
  unfoldable pub calculate_digest : Value → String → Digested
  calculate_digest event algorithm = elim (supported_hash_algorithm algorithm) [
    | none ↦ unsupported algorithm
    | some a ↦ digest_with a event
  ]

  abbrev pub with_hash : Value → Fields → Digested → Sealed
  with_hash (obj event) record_fields (digest hash) =
      sealed (obj (assign "integrity" (obj (assign "hash" (str hash) record_fields)) event))
  with_hash event record_fields (digest hash) = cannot_seal no_integrity
  with_hash event record_fields (unsupported a) = cannot_seal (unsupported_hash a)
  with_hash event record_fields (uncanonical e) = cannot_seal (not_canonical e)

  -- The guards of `sealEvent`, from the last.
  abbrev pub seal_algorithm : Value → Fields → Value → Sealed
  seal_algorithm event fs (str algorithm) = with_hash event fs (calculate_digest event algorithm)
  seal_algorithm event fs _ = cannot_seal no_algorithm

  abbrev pub seal_canonicalization : Value → Fields → Value → Sealed
  seal_canonicalization event fs (str c) = seal_algorithm event fs (member fs "hashAlgorithm")
  seal_canonicalization event fs _ = cannot_seal no_canonicalization

  abbrev pub seal_integrity : Value → Value → Sealed
  seal_integrity event (obj fs) = seal_canonicalization event fs (member fs "canonicalization")
  seal_integrity event _ = cannot_seal no_integrity

  -- `sealEvent`
  unfoldable pub seal_event : Value → Sealed
  seal_event event = seal_integrity event (property event "integrity")
