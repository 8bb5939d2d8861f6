-- ===== src/Integrity/Signature.antt =====
-- conformance/src/integrity/signature.ts: the checks around a signature. The key object and the
-- primitives of `node:crypto` are parameters; message texts are not modelled.
pub mod Accepted
pub mod Document
use Prim.Native.Char.{code}
use open_audit_model.Common.{
  ℕ, ◌+◌, ◌-◌, ◌*◌, ◌/◌, ◌%◌, String, Bool, true, false, not, ◌&&◌, ◌||◌, Option, none, some, List,
  [], ◌∷◌, ltb, leb, ◌==◌, if◌then◌else◌, is_none, value_or, length, take, any, ◌===◌, utf8,
}
use open_audit_model.Json.{Value, delete, obj, end}
use open_audit_model.Integrity.Types.{Bytes}
use open_audit_model.Integrity.Base64.{is_base64, from_base64}
use open_audit_model.Integrity.Hex.{from_hex, bytes_equal}
use open_audit_model.Integrity.Canonicalize.{Package, canonicalize, canonical, throws}
use open_audit_model.Integrity.Digest.{build_digest_input, digest}

-- `SUPPORTED_SIGNATURE_ALGORITHMS`
pub data SignatureAlgorithm : Type 0 where
  ed25519 ecdsa_p256 rsa_pss : SignatureAlgorithm

-- `isSupportedSignatureAlgorithm`, with the identifier that it narrows to
abbrev pub supported_signature_algorithm : String → Option SignatureAlgorithm
supported_signature_algorithm name =
    if name === "Ed25519"
    then some ed25519
    else if name === "ECDSA-P256-SHA256"
    then some ecdsa_p256
    else if name === "RSA-PSS-SHA256"
    then some rsa_pss
    else none

-- What `KeyObject` says of a public key: `asymmetricKeyType`, whether an export as SPKI succeeds,
-- the members of `asymmetricKeyDetails`, and the decoded `x` of an export as JWK.
pub record PublicKey : Type 0 where
  pub key_type : Option String
  pub exports : Bool
  pub named_curve : Option String
  pub modulus_length : Option ℕ
  pub public_exponent : Option ℕ
  pub point : Option Bytes

-- `SignatureAlgorithmSpec`
pub record SignatureAlgorithmSpec : Type 0 where
  pub key_types : List String
  pub curve : Option String
  pub minimum_modulus_bits : Option ℕ
  pub signature_bytes : Option ℕ

-- `SIGNATURE_ALGORITHMS`
abbrev pub spec_of : SignatureAlgorithm → SignatureAlgorithmSpec
spec_of ed25519 = record {
  key_types = "ed25519" ∷ [];
  curve = none;
  minimum_modulus_bits = none;
  signature_bytes = some 64;
}
spec_of ecdsa_p256 = record {
  key_types = "ec" ∷ [];
  curve = some "prime256v1";
  minimum_modulus_bits = none;
  signature_bytes = some 64;
}
spec_of rsa_pss = record {
  key_types = "rsa" ∷ "rsa-pss" ∷ [];
  curve = none;
  minimum_modulus_bits = some 2048;
  signature_bytes = none;
}

-- The call of `crypto.verify` that each scheme makes: no digest name for Ed25519, SHA-256 with the
-- P1363 encoding, SHA-256 with PSS padding and the salt length found in the signature.
pub data Primitive : Type 0 where
  own_digest : Primitive
  p1363_encoding pss_auto_salt : String → Primitive

-- `verifyWithPrimitive`
abbrev pub primitive_of : SignatureAlgorithm → Primitive
primitive_of ed25519 = own_digest
primitive_of ecdsa_p256 = p1363_encoding "sha256"
primitive_of rsa_pss = pss_auto_salt "sha256"

-- `crypto.verify`; `none` is a throw
abbrev pub CryptoVerify : Type 0
CryptoVerify = Primitive → Bytes → PublicKey → Bytes → Option Bool

-- `SMALL_ORDER_POINTS`
abbrev pub small_order_points : List String
small_order_points =
    "0000000000000000000000000000000000000000000000000000000000000000"
    ∷ "0100000000000000000000000000000000000000000000000000000000000000"
    ∷ "26e8958fc2b227b045c3f489f2ef98f0d5dfac05d3c63339b13802886d53fc05"
    ∷ "c7176a703d4dd84fba3c0b760d10670f2a2053fa2c39ccc64ec7fd7792ac037a"
    ∷ "ecffffffffffffffffffffffffffffffffffffffffffffffffffffffffffff7f"
    ∷ "edffffffffffffffffffffffffffffffffffffffffffffffffffffffffffff7f"
    ∷ "eeffffffffffffffffffffffffffffffffffffffffffffffffffffffffffff7f" ∷ []

-- The sign bit of the last byte cleared.
unfoldable pub clear_sign : Bytes → Bytes
clear_sign [] = []
clear_sign (b ∷ []) = b % 128 ∷ []
clear_sign (b ∷ c ∷ bs) = b ∷ clear_sign (c ∷ bs)

-- `isSmallOrderEd25519Point`
unfoldable pub is_small_order_point : Bytes → Bool
is_small_order_point encoded =
    if length encoded == 32
    then any (λ point. bytes_equal (from_hex point) (clear_sign encoded)) small_order_points
    else false

abbrev pub is_text : Option String → String → Bool
is_text none t = false
is_text (some s) t = s === t

-- `isSmallOrderEd25519Key`
unfoldable pub is_small_order_key : PublicKey → Bool
is_small_order_key key =
    if is_text key.key_type "ed25519"
    then elim key.point [ none ↦ false | some x ↦ is_small_order_point x ]
    else false

-- Why a key is unusable.
pub data UnusableKey : Type 0 where
  not_a_point small_order weak_exponent : UnusableKey

abbrev is_weak_exponent : Option ℕ → Bool
is_weak_exponent none = true
is_weak_exponent (some e) = ltb e 3 || e % 2 == 0

-- `unusableKeyReason`
unfoldable pub unusable_key_reason : PublicKey → Option UnusableKey
unusable_key_reason key =
    if is_text key.key_type "ec" && not key.exports
    then some not_a_point
    else if is_small_order_key key
    then some small_order
    else if (is_text key.key_type "rsa" || is_text key.key_type "rsa-pss")
        && is_weak_exponent key.public_exponent
    then some weak_exponent
    else none

-- `SignatureCheckResult`
pub data SignatureCheck : Type 0 where
  valid unsupported_signature malformed invalid : SignatureCheck

abbrev pub curve_differs : SignatureAlgorithmSpec → PublicKey → Bool
curve_differs spec key = elim spec.curve [ none ↦ false | some c ↦ not (is_text key.named_curve c) ]

abbrev pub modulus_too_small : SignatureAlgorithmSpec → PublicKey → Bool
modulus_too_small spec key = elim spec.minimum_modulus_bits [
  | none ↦ false
  | some least ↦ elim key.modulus_length [ none ↦ true | some bits ↦ ltb bits least ]
]

-- `spec.signatureBytes ?? Math.ceil(modulusBits / 8)`
abbrev pub expected_length : SignatureAlgorithmSpec → PublicKey → ℕ
expected_length spec key = value_or spec.signature_bytes ((value_or key.modulus_length 0 + 7) / 8)

abbrev pub of_primitive : Option Bool → SignatureCheck
of_primitive (some true) = valid
of_primitive _ = invalid

abbrev pub is_ed25519 : SignatureAlgorithm → Bool
is_ed25519 ed25519 = true
is_ed25519 a = false

module _ (verify : CryptoVerify) where
  -- `verifySignature` from the test of the key's type on
  unfoldable pub verify_with : Bytes → SignatureAlgorithm → String → PublicKey → SignatureCheck
  verify_with signed a value key =
      if not (any (is_text key.key_type) (spec_of a).key_types)
      then invalid
      else if not (is_none (unusable_key_reason key))
      then invalid
      else if curve_differs (spec_of a) key
      then invalid
      else if modulus_too_small (spec_of a) key
      then invalid
      else if not (is_base64 value)
      then malformed
      else if not (length (from_base64 value) == expected_length (spec_of a) key)
      then malformed
      else if is_ed25519 a && is_small_order_point (take 32 (from_base64 value))
      then invalid
      else of_primitive (verify (primitive_of a) signed key (from_base64 value))

  -- `verifySignature`
  unfoldable pub verify_signature : Bytes → String → String → PublicKey → SignatureCheck
  verify_signature signed algorithm value key = elim (supported_signature_algorithm algorithm) [
    | none ↦ unsupported_signature
    | some a ↦ verify_with signed a value key
  ]

  -- `canonicalBytes` before the check; `none` is its throw
  abbrev pub over_canonical : Package → Value → (Bytes → SignatureCheck) → Option SignatureCheck
  over_canonical pkg value check = elim (canonicalize pkg value) [
    | throws e ↦ none
    | canonical text ↦ some (check (utf8 text))
  ]

  -- `verifyEventSignature`
  unfoldable pub verify_event_signature :
      Package → Value → String → String → PublicKey → Option SignatureCheck
  verify_event_signature pkg event algorithm value key =
      over_canonical pkg (build_digest_input event)
        (λ signed. verify_signature signed algorithm value key)

  -- `documentSignatureInput`
  abbrev pub document_signature_input : Value → Value
  document_signature_input (obj fs) = obj (delete "signature" fs)
  document_signature_input v = v

  -- `verifyDocumentSignature`
  unfoldable pub verify_document_signature :
      Package → Value → String → String → PublicKey → Option SignatureCheck
  verify_document_signature pkg document algorithm value key =
      over_canonical pkg (document_signature_input document)
        (λ signed. verify_signature signed algorithm value key)
