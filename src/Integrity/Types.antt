-- ===== src/Integrity/Types.antt =====
-- conformance/src/integrity/types.ts and the hash functions of `node:crypto`, which are a parameter.
use open_audit_model.Common.{
  ℕ, ◌<◌, String, ◌≡◌, ◌≢◌, Option, none, some, List, if◌then◌else◌, length, All, ◌===◌,
}

-- `SUPPORTED_HASH_ALGORITHMS`
pub data HashAlgorithm : Type 0 where
  sha256 sha384 sha512 : HashAlgorithm

-- `isSupportedHashAlgorithm`, with the identifier that it narrows to; matching is case-sensitive.
abbrev pub supported_hash_algorithm : String → Option HashAlgorithm
supported_hash_algorithm name =
    if name === "SHA-256"
    then some sha256
    else if name === "SHA-384"
    then some sha384
    else if name === "SHA-512"
    then some sha512
    else none

-- `DIGEST_BYTE_LENGTHS`, `digestByteLength`
abbrev pub digest_byte_length : HashAlgorithm → ℕ
digest_byte_length sha256 = 32
digest_byte_length sha384 = 48
digest_byte_length sha512 = 64

abbrev pub Bytes : Type 0
Bytes = List ℕ

abbrev pub IsByte : ℕ → Type 0
IsByte n = n < 256

-- `createHash(name).update(bytes).digest()`: a digest of the algorithm's length, for any input.
pub record Hash : Type 0 where
  pub digest : HashAlgorithm → Bytes → Bytes
  pub length-digest : (a : HashAlgorithm) (bs : Bytes) → length (digest a bs) ≡ digest_byte_length a
  pub digest-IsByte : (a : HashAlgorithm) (bs : Bytes) → All IsByte (digest a bs)

-- Two different inputs with one digest, of which the one is among the inputs `P` and the other among
-- the inputs `Q`.
pub record Collision (h : Hash) (a : HashAlgorithm) (P Q : Bytes → Type 0) : Type 0 where
  pub left : Bytes
  pub right : Bytes
  pub from_left : P left
  pub from_right : Q right
  pub differ : left ≢ right
  pub agree : h.digest a left ≡ h.digest a right
