-- ===== src/Integrity/Event/SealVerify.antt =====
-- What sealing makes is verified.
use open_audit_model.Common.{
  String, ◌≡◌, refl, ap, ◌∙◌, inl, inr, Bool, true, false, Option, none, some, Bool-cases,
  Option-cases, ◌===◌, ===→≡, ===_refl, utf8, ◌*◌, ◌<◌, arith, utf16_length, sym, subst,
}
use open_audit_model.Json.{Value, member, assign, as_record, str, obj, Fields, end, field}
use open_audit_model.Integrity.Types.{
  supported_hash_algorithm, HashAlgorithm, Hash, digest_byte_length, Bytes, sha256, sha384, sha512,
}
use open_audit_model.Integrity.Hex.{hex_pairs, is_hex_digest, to_hex}
use open_audit_model.Integrity.Hex.RoundTrip.{hex_pairs-to_hex, utf16_length-to_hex}
use open_audit_model.Integrity.Canonicalize.{Package, canonicalize, canonical, throws}
use open_audit_model.Integrity.Digest.{
  build_digest_input, property, digest_with, calculate_digest, seal_event, digest, sealed,
  unsupported, uncanonical,
}
use open_audit_model.Integrity.Digest.Sealing.{seal_event-IsSealed, build_digest_input-seal_event}
use open_audit_model.Integrity.Signature.{PublicKey}
use open_audit_model.Integrity.Findings.{Validator}
use open_audit_model.Integrity.Event.{check_signature, verify_event_integrity, Engine}
use open_audit_model.Integrity.Event.Verdict.{NotFailed}
use open_audit_model.Integrity.Event.Tamper.{
  Admits, verify_event_integrity-verified_iff, calculate_digest_inv,
}

member-assign : (k : String) (v : Value) (fs : Fields) → member (assign k v fs) k ≡ v
member-assign k v end = rw ===_refl
member-assign k v (field j w fs) = elim (Bool-cases (j === k)) [
  | inl same ↦ rw (same, same)
  | inr other ↦ rw (other, other, member-assign k v fs)
]

member-assign_other :
    (j k : String) (v : Value) (fs : Fields)
    → (k === j) ≡ false
    → member (assign k v fs) j ≡ member fs j
member-assign_other j k v end d = rw d
member-assign_other j k v (field i w fs) d = elim (Bool-cases (i === k)) [
  | inl same ↦
      let n : (i === j) ≡ false = subst (λ i. (i === j) ≡ false) (sym (===→≡ i k same)) d in
      rw (same, n) refl
  | inr other ↦ elim (Bool-cases (i === j)) [
    | inl here ↦ rw (other, here) refl
    | inr there ↦ rw (other, there) (member-assign_other j k v fs d)
  ]
]

module _ (h : Hash) (pkg : Package) where
  calculate_digest-congr :
      (x y : Value) (name : String)
      → build_digest_input x ≡ build_digest_input y
      → calculate_digest h pkg x name ≡ calculate_digest h pkg y name
  unfolding calculate_digest digest_with
  calculate_digest-congr x y name e =
      ap
        (λ input. elim (supported_hash_algorithm name) [
          | none ↦ unsupported name
          | some a ↦ elim (canonicalize pkg input) [
            | throws x ↦ uncanonical x
            | canonical text ↦ digest (to_hex (h.digest a (utf8 text)))
          ]
        ])
        e

  supported_of_digest :
      (event : Value) (name hash : String)
      → calculate_digest h pkg event name ≡ digest hash
      → (a : HashAlgorithm) × (supported_hash_algorithm name ≡ some a)
  unfolding calculate_digest
  supported_of_digest event name hash e = elim (Option-cases (supported_hash_algorithm name)) [
    | inr p ↦ p
    | inl n ↦ absurd (cc (rw (calculate_digest, n) at e))
  ]

positive : (a : HashAlgorithm) → 0 < digest_byte_length a
positive sha256 = omega arith
positive sha384 = omega arith
positive sha512 = omega arith

to_hex_form :
    (h : Hash) (a : HashAlgorithm) (bs : Bytes)
    → (is_hex_digest (to_hex (h.digest a bs)) ≡ true)
      × (utf16_length (to_hex (h.digest a bs)) ≡ digest_byte_length a * 2)
unfolding is_hex_digest hex_pairs
to_hex_form h a bs =
    let n =
      utf16_length-to_hex (h.digest a bs) (h.digest-IsByte a bs)
      ∙ (ap (λ n. 2 * n) (h.length-digest a bs) ∙ omega arith) in
    (
      filled (to_hex (h.digest a bs)) (hex_pairs-to_hex (h.digest a bs) (h.digest-IsByte a bs))
          (omega (arith, n, positive a)),
      n,
    )
  where
    filled : (s : String) → hex_pairs s ≡ true → 0 < utf16_length s → is_hex_digest s ≡ true
    filled s p l = elim (Bool-cases (s === "")) [
      | inl e ↦
          let z : 0 < 0 = subst (λ s. 0 < utf16_length s) (===→≡ s "" e) l in absurd (omega arith)
      | inr n ↦ rw n p
    ]

-- Sealing and verification agree: a sealed event that declares the canonicalization RFC8785, and a
-- signature that does not fail or none, is verified, with the digest that sealing wrote.
pub verify_event_integrity-seal_event :
    (env : Engine) (event out : Value) (label : String) (validator : Validator)
    (validate_schema : Bool) (key : Option PublicKey)
    → seal_event env.hash env.package_canonicalize event ≡ sealed out
    → property (property event "integrity") "canonicalization" ≡ str "RFC8785"
    → Admits validator validate_schema out
    → NotFailed (check_signature env out (property (property out "integrity") "signature") key)
    → (verify_event_integrity env out label validator validate_schema key).verified ≡ true
verify_event_integrity-seal_event env event out label validator validate_schema key e ec ok n =
    let s = seal_event-IsSealed env.hash env.package_canonicalize event out e in
    let sealed_fs = assign "hash" (str s.hash) s.integrity in
    let (a, sup) =
      supported_of_digest env.hash env.package_canonicalize event s.algorithm s.hash s.digested in
    let d =
      calculate_digest_inv env.hash env.package_canonicalize event s.algorithm s.hash a sup
        s.digested in
    let inside : property out "integrity" ≡ obj sealed_fs =
      rw s.result (member-assign "integrity" (obj sealed_fs) s.members) in
    let (hex, fit) = to_hex_form env.hash a (utf8 d.text) in
    (verify_event_integrity-verified_iff env out label validator validate_schema key).1 (
      ok,
      record {
        integrity = sealed_fs;
        hash = s.hash;
        name = s.algorithm;
        algorithm = a;
        has_integrity = ap as_record inside;
        has_hash = member-assign "hash" (str s.hash) s.integrity;
        has_canonicalization =
            member-assign_other "canonicalization" "hash" (str s.hash) s.integrity refl
            ∙ (rw (s.is_object, s.has_integrity) at ec);
        has_algorithm =
            member-assign_other "hashAlgorithm" "hash" (str s.hash) s.integrity refl
            ∙ s.has_algorithm;
        supported = sup;
        is_hex = subst (λ x. is_hex_digest x ≡ true) (sym d.hashed) hex;
        fits = subst (λ x. utf16_length x ≡ digest_byte_length a * 2) (sym d.hashed) fit;
        digested =
            calculate_digest-congr env.hash env.package_canonicalize out event s.algorithm
              (build_digest_input-seal_event env.hash env.package_canonicalize event out e)
            ∙ s.digested;
        signature = rw inside at n;
      },
    )
