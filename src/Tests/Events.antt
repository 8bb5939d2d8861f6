-- ===== src/Tests/Events.antt =====
-- Events, sealed and verified.
use open_audit_model.Common.{◌+◌, ◌≤◌, String, ◌≡◌, refl, ◌↔◌, ◌⊎◌, true, none, utf8}
use open_audit_model.Json.{Value, field, end, obj, str, Fields}
use open_audit_model.Integrity.Types.{sha256, Collision}
use open_audit_model.Integrity.Hex.{
  hex_pairs, is_hex_digest, from_hex, to_hex, bytes_equal, digests_equal,
}
use open_audit_model.Integrity.Hex.RoundTrip.{digests_equal_iff}
use open_audit_model.Integrity.Canonicalize.{assert_json_value, canonicalize}
use open_audit_model.Integrity.Canonicalize.Accepts.{assert_json_value-eq-none_iff}
use open_audit_model.Json.Shape.{height, IsJson}
use open_audit_model.Integrity.Digest.{
  build_digest_input, property, digest_with, calculate_digest, seal_event, sealed,
}
use open_audit_model.Integrity.Digest.Sealing.{build_digest_input-seal_event}
use open_audit_model.Integrity.Event.{check_signature, verify_event_integrity}
use open_audit_model.Integrity.Event.Verdict.{NotFailed, IsVerified}
use open_audit_model.Integrity.Event.Tamper.{
  IsHashedFor, Admits, verify_event_integrity-verified_iff, verified-binding, SameInput,
}
use open_audit_model.Integrity.Event.SealVerify.{verify_event_integrity-seal_event}
use open_audit_model.Tests.{engine, accepts_all}

abbrev pub sealing : Fields
sealing = field "canonicalization" (str "RFC8785") (field "hashAlgorithm" (str "SHA-256") end)

abbrev pub declared : String
declared = "dadadadadadadadadadadadadadadadadadadadadadadadadadadadadadadada"

abbrev pub sealed_fields : Fields
sealed_fields =
    field "canonicalization" (str "RFC8785")
      (field "hashAlgorithm" (str "SHA-256") (field "hash" (str declared) end))

abbrev draft : Value
draft = obj (field "event" (str "login") (field "integrity" (obj sealing) end))

abbrev pub sealed_event : Value
sealed_event = obj (field "event" (str "login") (field "integrity" (obj sealed_fields) end))

-- Another event with the same checksum.
abbrev other_event : Value
other_event = obj (field "event" (str "nigol") (field "integrity" (obj sealed_fields) end))

seals : seal_event engine.hash engine.package_canonicalize draft ≡ sealed sealed_event
unfolding seal_event calculate_digest digest_with build_digest_input canonicalize assert_json_value
    to_hex utf8
seals = refl

verifies : (verify_event_integrity engine sealed_event "a" accepts_all true none).verified ≡ true
unfolding verify_event_integrity calculate_digest digest_with build_digest_input canonicalize
    assert_json_value to_hex utf8 digests_equal is_hex_digest hex_pairs from_hex bytes_equal
    check_signature
verifies = refl

verifies_other :
    (verify_event_integrity engine other_event "b" accepts_all true none).verified ≡ true
unfolding verify_event_integrity calculate_digest digest_with build_digest_input canonicalize
    assert_json_value to_hex utf8 digests_equal is_hex_digest hex_pairs from_hex bytes_equal
    check_signature
verifies_other = refl

no_signature : NotFailed (
    check_signature engine sealed_event
      (property (property sealed_event "integrity") "signature")
      none)
unfolding check_signature
no_signature = tt

verify_event_integrity-verified_iff_example :
    Admits accepts_all true sealed_event × IsVerified engine sealed_event none
verify_event_integrity-verified_iff_example =
    (verify_event_integrity-verified_iff engine sealed_event "a" accepts_all true none).0 verifies

verified-binding_example :
    SameInput engine.package_canonicalize sealed_event other_event
    ⊎ Collision engine.hash sha256
        (IsHashedFor engine.package_canonicalize sealed_event)
        (IsHashedFor engine.package_canonicalize other_event)
verified-binding_example =
    verified-binding engine sealed_event other_event "a" "b" accepts_all true true none
      sealed_fields sealed_fields "SHA-256" sha256 verifies verifies_other refl refl refl refl refl
      refl

verify_event_integrity-seal_event_example :
    (verify_event_integrity engine sealed_event "a" accepts_all true none).verified ≡ true
verify_event_integrity-seal_event_example =
    verify_event_integrity-seal_event engine draft sealed_event "a" accepts_all true none seals refl
      (λ h. refl) no_signature

build_digest_input-seal_event_example : build_digest_input sealed_event ≡ build_digest_input draft
build_digest_input-seal_event_example =
    build_digest_input-seal_event engine.hash engine.package_canonicalize draft sealed_event seals

assert_json_value-eq-none_iff_example :
    (assert_json_value sealed_event "" 0 ≡ none)
    ↔ (IsJson sealed_event × (0 + height sealed_event ≤ 200))
assert_json_value-eq-none_iff_example = assert_json_value-eq-none_iff sealed_event "" 0

digests_equal_iff_example :
    (digests_equal declared declared ≡ true)
    ↔ ((is_hex_digest declared ≡ true) × (declared ≡ declared))
digests_equal_iff_example = digests_equal_iff declared declared
