-- ===== src/Integrity/Event.antt =====
-- conformance/src/integrity/verify-event.ts: the verification of one event's own digest.
pub mod Verdict
pub mod Tamper
pub mod SealVerify
use open_audit_model.Common.{
  ◌*◌, String, Bool, true, false, not, Option, none, some, List, [], ◌∷◌, ◌++◌, ◌==◌, if◌then◌else◌,
  tests, utf16_length,
}
use open_audit_model.Json.{Value, as_record, member, obj, own, str, Fields}
use open_audit_model.Integrity.Types.{
  Hash, digest_byte_length, supported_hash_algorithm, HashAlgorithm,
}
use open_audit_model.Integrity.Hex.{is_hex_digest, digests_equal}
use open_audit_model.Integrity.Canonicalize.{Package, is_supported_canonicalization}
use open_audit_model.Integrity.Digest.{
  calculate_digest, property, Digested, digest, unsupported, uncanonical,
}
use open_audit_model.Integrity.Signature.{
  PublicKey, CryptoVerify, verify_event_signature, supported_signature_algorithm, SignatureCheck,
  valid, unsupported_signature, malformed, invalid,
}
use open_audit_model.Integrity.Findings.{
  EventResult, at_event, Validator, FindingKind, schema_invalid, integrity_missing, hash_missing,
  hash_algorithm_missing, canonicalization_missing, unsupported_canonicalization, malformed_hash,
  digest_length_mismatch, hash_mismatch, canonicalization_failed, unsupported_signature_algorithm,
  malformed_signature, signature_invalid, Check, schema_valid, hash_valid, canonicalization_is,
  hash_algorithm_is, signature_unchecked, signature_valid, Finding, ValidationIssue,
  unsupported_algorithm,
}

-- What the program calls and does not implement: hash functions, the `canonicalize` package, and
-- `crypto.verify`.
pub record Engine : Type 0 where
  pub hash : Hash
  pub package_canonicalize : Package
  pub verify : CryptoVerify

-- `readIntegrity`
abbrev pub read_integrity : Value → Option Fields
read_integrity event = as_record (property event "integrity")

-- `readSignature`: the algorithm and the value
abbrev pub read_signature : Value → Option (String × String)
read_signature (obj fs) = elim (member fs "algorithm") [
  | str algorithm ↦ elim (member fs "value") [ str value ↦ some (algorithm, value) | _ ↦ none ]
  | _ ↦ none
]
read_signature v = none

-- The result of `checkSignature`.
pub data SignatureReport : Type 0 where
  undeclared : SignatureReport
  passed : Check → SignatureReport
  failed : FindingKind → SignatureReport

-- `failure`
abbrev pub failure : String → FindingKind → List Check → EventResult
failure label kind checks = record {
  label = label;
  verified = false;
  checks = checks;
  findings = at_event kind label ∷ [];
  canonicalization = none;
  hash_algorithm = none;
  declared_hash = none;
  calculated_hash = none;
}

-- A result after the digest was calculated.
abbrev pub digested_result :
    String → List Check → List Finding → String → String → String → String → EventResult
digested_result label checks findings c a declared calculated = record {
  label = label;
  verified = elim findings [ [] ↦ true | f ∷ fs ↦ false ];
  checks = checks;
  findings = findings;
  canonicalization = some c;
  hash_algorithm = some a;
  declared_hash = some declared;
  calculated_hash = some calculated;
}

abbrev report_of : String → Option SignatureCheck → SignatureReport
report_of algorithm (some valid) = passed (signature_valid algorithm)
report_of algorithm (some unsupported_signature) = failed unsupported_signature_algorithm
report_of algorithm (some malformed) = failed malformed_signature
report_of algorithm (some invalid) = failed signature_invalid
report_of algorithm none = failed canonicalization_failed

module _ (env : Engine) where
  -- `checkSignature`, where one is declared. The event was canonicalized for its digest before this,
  -- so that `canonicalBytes` does not throw here.
  unfoldable pub check_declared : Value → String → String → Option PublicKey → SignatureReport
  check_declared event algorithm value key = elim (supported_signature_algorithm algorithm) [
    | none ↦ failed unsupported_signature_algorithm
    | some a ↦ elim key [
      | none ↦ passed (signature_unchecked algorithm)
      | some k ↦
          report_of algorithm
            (verify_event_signature env.verify env.package_canonicalize event algorithm value k)
    ]
  ]

  -- `checkSignature`
  unfoldable pub check_signature : Value → Value → Option PublicKey → SignatureReport
  check_signature event signature key = elim (read_signature signature) [
    | none ↦ undeclared
    | some (algorithm, value) ↦ check_declared event algorithm value key
  ]

  module _ (event : Value) (label : String) (key : Option PublicKey) where
    -- The last step: the signature, once the hash is valid.
    abbrev pub after_hash :
        List Check → String → String → String → String → SignatureReport → EventResult
    after_hash checks c a hash calculated undeclared =
        digested_result label checks [] c a hash calculated
    after_hash checks c a hash calculated (passed check) =
        digested_result label (checks ++ check ∷ []) [] c a hash calculated
    after_hash checks c a hash calculated (failed kind) =
        digested_result label checks (at_event kind label ∷ []) c a hash calculated

    -- The comparison with the calculated digest.
    abbrev pub compare_digest :
        List Check → String → String → String → Value → Digested → EventResult
    compare_digest checks c a hash signature (digest calculated) =
        if digests_equal hash calculated
        then after_hash (checks ++ hash_valid ∷ []) c a hash calculated
            (check_signature event signature key)
        else digested_result label checks (at_event hash_mismatch label ∷ []) c a hash calculated
    compare_digest checks c a hash signature (unsupported name) =
        failure label canonicalization_failed checks
    compare_digest checks c a hash signature (uncanonical e) =
        failure label canonicalization_failed checks

    -- The tests of the declared hash.
    abbrev pub check_hash :
        List Check → String → String → HashAlgorithm → String → Value → EventResult
    check_hash checks c name a hash signature =
        if not (is_hex_digest hash)
        then failure label malformed_hash checks
        else if not (utf16_length hash == digest_byte_length a * 2)
        then failure label digest_length_mismatch checks
        else compare_digest checks c name hash signature
            (calculate_digest env.hash env.package_canonicalize event name)

    abbrev pub with_algorithm :
        List Check → String → String → Fields → String → Option HashAlgorithm → EventResult
    with_algorithm checks c hash fs name none = failure label unsupported_algorithm checks
    with_algorithm checks c hash fs name (some a) =
        check_hash (checks ++ hash_algorithm_is name ∷ []) c name a hash (member fs "signature")

    abbrev pub check_algorithm : List Check → String → String → Fields → Value → EventResult
    check_algorithm checks c hash fs (str name) =
        with_algorithm checks c hash fs name (supported_hash_algorithm name)
    check_algorithm checks c hash fs _ = failure label hash_algorithm_missing checks

    abbrev pub check_canonicalization : List Check → String → Fields → Value → EventResult
    check_canonicalization checks hash fs (str c) =
        if not (is_supported_canonicalization c)
        then failure label unsupported_canonicalization checks
        else check_algorithm (checks ++ canonicalization_is c ∷ []) c hash fs
            (member fs "hashAlgorithm")
    check_canonicalization checks hash fs _ = failure label canonicalization_missing checks

    abbrev pub check_declared_hash : List Check → Fields → Value → EventResult
    check_declared_hash checks fs (str hash) =
        check_canonicalization checks hash fs (member fs "canonicalization")
    check_declared_hash checks fs _ = failure label hash_missing checks

    abbrev pub check_integrity : List Check → Option Fields → EventResult
    check_integrity checks none = failure label integrity_missing checks
    check_integrity checks (some fs) = check_declared_hash checks fs (member fs "hash")

  abbrev pub after_schema : Value → String → Option PublicKey → List ValidationIssue → EventResult
  after_schema event label key [] =
      check_integrity event label key (schema_valid ∷ []) (read_integrity event)
  after_schema event label key (i ∷ is) = failure label schema_invalid []

  -- `verifyEventIntegrity`; `validate_schema` is `options.validateSchema !== false`
  unfoldable pub verify_event_integrity :
      Value → String → Validator → Bool → Option PublicKey → EventResult
  verify_event_integrity event label validator validate_schema key =
      if validate_schema
      then after_schema event label key (validator event)
      else check_integrity event label key [] (read_integrity event)
