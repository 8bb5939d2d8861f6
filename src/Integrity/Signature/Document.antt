-- ===== src/Integrity/Signature/Document.antt =====
-- conformance/src/integrity/signature.ts: the signature that a document declares.
use open_audit_model.Common.{String, Option, none, some}
use open_audit_model.Json.{Value, obj, str, member}
use open_audit_model.Integrity.Findings.{
  FindingKind, unsupported_signature_algorithm, malformed_signature, signature_invalid,
}
use open_audit_model.Integrity.Canonicalize.{Package}
use open_audit_model.Integrity.Signature.{
  supported_signature_algorithm, CryptoVerify, verify_document_signature, SignatureAlgorithm,
  SignatureCheck, valid, unsupported_signature, malformed, invalid, PublicKey,
}

-- `DocumentSignatureResult.status`
pub data SignatureStatus : Type 0 where
  checked_valid not_checked checked_invalid : SignatureStatus

-- What `checkDeclaredDocumentSignature` returns for a declared signature.
pub record DocumentSignature : Type 0 where
  pub algorithm : String
  pub status : SignatureStatus
  pub finding : Option FindingKind

-- What `checkDeclaredDocumentSignature` does: it returns nothing, or a result, or throws the
-- `CanonicalizationError` of a document that has no canonical form.
pub data DocumentCheck : Type 0 where
  undeclared_signature throws_uncanonical : DocumentCheck
  declared_result : DocumentSignature → DocumentCheck

abbrev pub refused : String → FindingKind → DocumentCheck
refused algorithm kind =
    declared_result
      (record { algorithm = algorithm; status = checked_invalid; finding = some kind })

abbrev pub document_outcome : String → Option SignatureCheck → DocumentCheck
document_outcome algorithm (some valid) =
    declared_result (record { algorithm = algorithm; status = checked_valid; finding = none })
document_outcome algorithm (some unsupported_signature) =
    refused algorithm unsupported_signature_algorithm
document_outcome algorithm (some malformed) = refused algorithm malformed_signature
document_outcome algorithm (some invalid) = refused algorithm signature_invalid
document_outcome algorithm none = throws_uncanonical

abbrev read_declared : Value → Option (String × String)
read_declared (obj gs) = elim (member gs "algorithm") [
  | str algorithm ↦ elim (member gs "value") [ str value ↦ some (algorithm, value) | _ ↦ none ]
  | _ ↦ none
]
read_declared v = none

-- The algorithm and the value that a document's `signature` declares.
abbrev pub declared_signature : Value → Option (String × String)
declared_signature (obj fs) = read_declared (member fs "signature")
declared_signature v = none

module _ (verify : CryptoVerify) (pkg : Package) where
  abbrev pub check_document :
      Value → String → String → Option PublicKey → Option SignatureAlgorithm → DocumentCheck
  check_document document algorithm value key none =
      refused algorithm unsupported_signature_algorithm
  check_document document algorithm value none (some a) =
      declared_result (record { algorithm = algorithm; status = not_checked; finding = none })
  check_document document algorithm value (some key) (some a) =
      document_outcome algorithm (verify_document_signature verify pkg document algorithm value key)

  -- `checkDeclaredDocumentSignature`
  unfoldable pub check_declared_document_signature : Value → Option PublicKey → DocumentCheck
  check_declared_document_signature document key = elim (declared_signature document) [
    | none ↦ undeclared_signature
    | some (algorithm, value) ↦
        check_document document algorithm value key (supported_signature_algorithm algorithm)
  ]
