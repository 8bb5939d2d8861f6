-- ===== src/Integrity/Signature/Accepted.antt =====
-- When a signature is accepted.
use open_audit_model.Common.{String, ◌≡◌, true, false, ◌&&◌, none, some, length, take, any}
use open_audit_model.Integrity.Types.{Bytes}
use open_audit_model.Integrity.Base64.{is_base64, from_base64}
use open_audit_model.Integrity.Signature.{
  supported_signature_algorithm, spec_of, primitive_of, CryptoVerify, is_small_order_point, is_text,
  unusable_key_reason, curve_differs, modulus_too_small, expected_length, is_ed25519,
  SignatureAlgorithm, PublicKey,
}

-- What an accepted signature is: a supported algorithm, a key of a type that it takes, on its curve
-- and with a modulus that is large enough, and usable; a base64 value of the scheme's length, no
-- small-order point first where that is an Ed25519 signature; and the primitive accepts it.
pub record IsAccepted (verify : CryptoVerify) (signed : Bytes) (name value : String)
    (key : PublicKey) : Type 0 where
  pub algorithm : SignatureAlgorithm
  pub supported : supported_signature_algorithm name ≡ some algorithm
  pub takes_key : any (is_text key.key_type) (spec_of algorithm).key_types ≡ true
  pub usable : unusable_key_reason key ≡ none
  pub same_curve : curve_differs (spec_of algorithm) key ≡ false
  pub large_modulus : modulus_too_small (spec_of algorithm) key ≡ false
  pub encoded : is_base64 value ≡ true
  pub sized : length (from_base64 value) ≡ expected_length (spec_of algorithm) key
  pub honest_nonce :
      (is_ed25519 algorithm && is_small_order_point (take 32 (from_base64 value))) ≡ false
  pub verified : verify (primitive_of algorithm) signed key (from_base64 value) ≡ some true
