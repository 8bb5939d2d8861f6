-- ===== src/Integrity/Event/Verdict.antt =====
-- When an event is verified, and what that binds.
use open_audit_model.Common.{
  ◌*◌, String, ◌≡◌, sym, ap, inl, inr, true, Option, none, some, List, [], ◌∷◌, ◌++◌, ◌==◌, ==_iff,
  Bool-cases, utf16_length, refl, ◌∙◌, ◌===◌, ===→≡,
}
use open_audit_model.Json.{Value, member, str, Fields}
use open_audit_model.Integrity.Types.{HashAlgorithm, digest_byte_length, supported_hash_algorithm}
use open_audit_model.Integrity.Hex.{is_hex_digest, digests_equal}
use open_audit_model.Integrity.Hex.RoundTrip.{digests_equal_iff}
use open_audit_model.Integrity.Digest.{calculate_digest, Digested, digest}
use open_audit_model.Integrity.Signature.{PublicKey}
use open_audit_model.Integrity.Findings.{Check, hash_valid, canonicalization_is, hash_algorithm_is}
use open_audit_model.Integrity.Event.{
  Engine, read_integrity, check_signature, after_hash, compare_digest, check_hash, check_algorithm,
  check_canonicalization, check_integrity, SignatureReport, undeclared, passed, failed,
  with_algorithm, check_declared_hash,
}

-- A signature that does not fail: none is declared, or its check passed or could not be made.
abbrev pub NotFailed : SignatureReport → Type 0
NotFailed (failed kind) = ⊥
NotFailed r = Unit

-- What a verified event has: an integrity object with a canonicalization and an algorithm that this
-- verifier implements, a declared hash of the algorithm's length that is the digest of the event,
-- and no signature that fails.
pub record IsVerified (env : Engine) (event : Value) (key : Option PublicKey) : Type 0 where
  pub integrity : Fields
  pub hash : String
  pub name : String
  pub algorithm : HashAlgorithm
  pub has_integrity : read_integrity event ≡ some integrity
  pub has_hash : member integrity "hash" ≡ str hash
  pub has_canonicalization : member integrity "canonicalization" ≡ str "RFC8785"
  pub has_algorithm : member integrity "hashAlgorithm" ≡ str name
  pub supported : supported_hash_algorithm name ≡ some algorithm
  pub is_hex : is_hex_digest hash ≡ true
  pub fits : utf16_length hash ≡ digest_byte_length algorithm * 2
  pub digested : calculate_digest env.hash env.package_canonicalize event name ≡ digest hash
  pub signature : NotFailed (check_signature env event (member integrity "signature") key)

module _ (env : Engine) (event : Value) (label : String) (key : Option PublicKey) where
  from_report :
      (checks : List Check) (c a hash calculated : String) (r : SignatureReport)
      → (after_hash env event label key checks c a hash calculated r).verified ≡ true
      → NotFailed r
  from_report checks c a hash calculated undeclared e = tt
  from_report checks c a hash calculated (passed x) e = tt
  from_report checks c a hash calculated (failed x) e = cc

  from_digest :
      (checks : List Check) (c a hash : String) (signature : Value) (d : Digested)
      → (compare_digest env event label key checks c a hash signature d).verified ≡ true
      → (d ≡ digest hash) × NotFailed (check_signature env event signature key)
  from_digest checks c a hash signature (digest calculated) e =
      elim (Bool-cases (digests_equal hash calculated)) [
        | inr other ↦ cc (rw other at e)
        | inl same ↦ (
          ap digest (sym ((digests_equal_iff hash calculated).0 same).1),
          from_report (checks ++ hash_valid ∷ []) c a hash calculated
              (check_signature env event signature key) (rw same at e),
        )
      ]
  from_digest checks c a hash signature _ e = cc

  module _ (fs : Fields) (hash : String) (ei : read_integrity event ≡ some fs)
      (eh : member fs "hash" ≡ str hash) where
    from_hash :
        (checks : List Check) (c name : String) (a : HashAlgorithm)
        → member fs "canonicalization" ≡ str "RFC8785"
        → member fs "hashAlgorithm" ≡ str name
        → supported_hash_algorithm name ≡ some a
        → (check_hash env event label key checks c name a hash (member fs "signature")).verified
          ≡ true
        → IsVerified env event key
    from_hash checks c name a ec ea es e = elim (Bool-cases (is_hex_digest hash)) [
      | inr bad ↦ cc (rw bad at e)
      | inl hex ↦ elim (Bool-cases (utf16_length hash == digest_byte_length a * 2)) [
        | inr bad ↦ cc (rw (hex, bad) at e)
        | inl fits ↦
            let (d, s) =
              from_digest checks c name hash (member fs "signature")
                (calculate_digest env.hash env.package_canonicalize event name)
                (rw (hex, fits) at e) in
            record {
              integrity = fs;
              hash = hash;
              name = name;
              algorithm = a;
              has_integrity = ei;
              has_hash = eh;
              has_canonicalization = ec;
              has_algorithm = ea;
              supported = es;
              is_hex = hex;
              fits = (==_iff _ _).0 fits;
              digested = d;
              signature = s;
            }
      ]
    ]

    from_algorithm :
        (checks : List Check) (c name : String) (o : Option HashAlgorithm)
        → member fs "canonicalization" ≡ str "RFC8785"
        → member fs "hashAlgorithm" ≡ str name
        → supported_hash_algorithm name ≡ o
        → (with_algorithm env event label key checks c hash fs name o).verified ≡ true
        → IsVerified env event key
    from_algorithm checks c name none ec ea es e = cc
    from_algorithm checks c name (some a) ec ea es e =
        from_hash (checks ++ hash_algorithm_is name ∷ []) c name a ec ea es e

    from_name :
        (checks : List Check) (c : String) (v : Value)
        → member fs "canonicalization" ≡ str "RFC8785"
        → member fs "hashAlgorithm" ≡ v
        → (check_algorithm env event label key checks c hash fs v).verified ≡ true
        → IsVerified env event key
    from_name checks c (str name) ec ea e =
        from_algorithm checks c name (supported_hash_algorithm name) ec ea refl e
    from_name checks c _ ec ea e = cc

    from_canonicalization :
        (checks : List Check) (v : Value)
        → member fs "canonicalization" ≡ v
        → (check_canonicalization env event label key checks hash fs v).verified ≡ true
        → IsVerified env event key
    from_canonicalization checks (str c) ec e = elim (Bool-cases ("RFC8785" === c)) [
      | inr other ↦ cc (rw other at e)
      | inl same ↦
          from_name (checks ++ canonicalization_is c ∷ []) c (member fs "hashAlgorithm")
            (ec ∙ ap str (sym (===→≡ "RFC8785" c same))) refl (rw same at e)
    ]
    from_canonicalization checks _ ec e = cc

    from_declared :
        (checks : List Check)
        → (check_declared_hash env event label key checks fs (str hash)).verified ≡ true
        → IsVerified env event key
    from_declared checks e = from_canonicalization checks (member fs "canonicalization") refl e

  from_fields :
      (checks : List Check) (fs : Fields) (v : Value)
      → read_integrity event ≡ some fs
      → member fs "hash" ≡ v
      → (check_declared_hash env event label key checks fs v).verified ≡ true
      → IsVerified env event key
  from_fields checks fs (str hash) ei eh e = from_declared fs hash ei eh checks e
  from_fields checks fs _ ei eh e = cc

  pub from_integrity :
      (checks : List Check) (o : Option Fields)
      → read_integrity event ≡ o
      → (check_integrity env event label key checks o).verified ≡ true
      → IsVerified env event key
  from_integrity checks none ei e = cc
  from_integrity checks (some fs) ei e = from_fields checks fs (member fs "hash") ei refl e

  report_ok :
      (checks : List Check) (c a hash calculated : String) (r : SignatureReport)
      → NotFailed r
      → (after_hash env event label key checks c a hash calculated r).verified ≡ true
  report_ok checks c a hash calculated undeclared n = refl
  report_ok checks c a hash calculated (passed x) n = refl
  report_ok checks c a hash calculated (failed x) n = absurd n

  pub to_integrity :
      (checks : List Check)
      → IsVerified env event key
      → (check_integrity env event label key checks (read_integrity event)).verified ≡ true
  to_integrity checks v =
      rw
        (
          v.has_integrity,
          v.has_hash,
          v.has_canonicalization,
          v.has_algorithm,
          v.supported,
          v.is_hex,
          (==_iff _ _).1 v.fits,
          v.digested,
          (digests_equal_iff v.hash v.hash).1 (v.is_hex, refl),
        )
        (report_ok
          (((checks ++ canonicalization_is "RFC8785" ∷ []) ++ hash_algorithm_is v.name ∷ [])
            ++ hash_valid ∷ [])
          "RFC8785" v.name v.hash v.hash
          (check_signature env event (member v.integrity "signature") key) v.signature)
