-- ===== src/Versions/Dispatch.antt =====
-- Which validator judges an event, and what a version that is not implemented leads to.
use open_audit_model.Common.{
  String, ◌≡◌, refl, sym, ◌∙◌, subst, inl, inr, true, false, Option, none, [], ◌∷◌, Bool-cases,
}
use open_audit_model.Json.{Value, obj, str, member, Fields}
use open_audit_model.Integrity.Signature.{PublicKey}
use open_audit_model.Integrity.Findings.{Validator}
use open_audit_model.Integrity.Event.{verify_event_integrity, Engine}
use open_audit_model.Integrity.Event.Tamper.{verify_event_integrity-verified_iff}
use open_audit_model.Versions.{
  supported_spec_version, has_version_form, declared_spec_version, was_not_evaluated, not_evaluated,
  versioned_validator, SpecVersion, unsupported_version,
}

-- The event declares a well-formed version that is not implemented.
pub record IsUnsupported (event : Value) (version : String) : Type 0 where
  pub members : Fields
  pub is_object : event ≡ obj members
  pub declares : member members "specVersion" ≡ str version
  pub well_formed : has_version_form version ≡ true
  pub not_supported : supported_spec_version version ≡ none

classified :
    (event : Value) (version : String)
    → IsUnsupported event version
    → declared_spec_version event ≡ unsupported_version version
unfolding declared_spec_version
classified event version u = rw (u.is_object, u.declares, u.well_formed, u.not_supported) refl

-- An event of a well-formed version that is not implemented is never evaluated, whatever the compiled
-- schemas say: its only issue says so, and with the schema asked for it is not verified.
pub versioned_validator-IsUnsupported :
    (by_version : SpecVersion → Validator) (env : Engine) (event : Value) (version label : String)
    (key : Option PublicKey)
    → IsUnsupported event version
    → (versioned_validator by_version event ≡ not_evaluated version ∷ [])
      × (was_not_evaluated (versioned_validator by_version event) ≡ true)
      × ((verify_event_integrity env event label (versioned_validator by_version) true key).verified
          ≡ false)
unfolding versioned_validator
versioned_validator-IsUnsupported by_version env event version label key u =
    let c : versioned_validator by_version event ≡ not_evaluated version ∷ [] =
      rw (versioned_validator, classified event version u) refl in
    (c, subst (λ is. was_not_evaluated is ≡ true) (sym c) refl, not_verified c)
  where
    not_verified :
        versioned_validator by_version event ≡ not_evaluated version ∷ []
        → (verify_event_integrity env event label
            (versioned_validator by_version)
            true
            key).verified
          ≡ false
    not_verified c =
        elim (Bool-cases
          (verify_event_integrity env event label (versioned_validator by_version) true
            key).verified) [
              | inr n ↦ n
              | inl v ↦
                  let p =
                    (verify_event_integrity-verified_iff env event label
                        (versioned_validator by_version) true key).0
                      v in
                  cc (sym c ∙ p.0 refl)
            ]
