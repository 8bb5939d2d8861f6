-- ===== src/Versions.antt =====
-- conformance/src/validator-interface.ts: the version that an event declares decides its validator.
pub mod Dispatch
use Prim.Native.Char.{code}
use open_audit_model.Common.{
  ℕ, String, Bool, true, false, not, ◌&&◌, Option, none, some, List, [], ◌∷◌, leb, ◌==◌,
  if◌then◌else◌, ◌===◌, ◌+++◌,
}
use open_audit_model.Json.{Value, obj, str, member, end}
use open_audit_model.Integrity.Findings.{Validator, ValidationIssue}

-- `SUPPORTED_SPEC_VERSIONS`
pub data SpecVersion : Type 0 where
  version_0_1 version_1_0 : SpecVersion

abbrev pub supported_spec_version : String → Option SpecVersion
supported_spec_version name =
    if name === "0.1" then some version_0_1 else if name === "1.0" then some version_1_0 else none

-- `DeclaredSpecVersion`
pub data DeclaredSpecVersion : Type 0 where
  supported_version : SpecVersion → DeclaredSpecVersion
  unsupported_version : String → DeclaredSpecVersion
  malformed_version : DeclaredSpecVersion

abbrev pub is_digit : ℕ → Bool
is_digit c = leb 48 c && leb c 57

-- `[0-9]*`, to the end
unfoldable pub digits_to_end : String → Bool
digits_to_end String.[] = true
digits_to_end (String.◌∷◌ c s) = is_digit (code c) && digits_to_end s

-- `(0|[1-9][0-9]*)`, to the end
abbrev pub minor_form : String → Bool
minor_form String.[] = false
minor_form (String.◌∷◌ c s) =
    if code c == 48 then s === "" else is_digit (code c) && digits_to_end s

-- `\.` and the rest, after the digits of the major number
unfoldable pub after_digits : String → Bool
after_digits String.[] = false
after_digits (String.◌∷◌ c s) =
    if code c == 46 then minor_form s else is_digit (code c) && after_digits s

-- `\.` and the rest, after a major number of 0
abbrev pub after_zero : String → Bool
after_zero String.[] = false
after_zero (String.◌∷◌ c s) = code c == 46 && minor_form s

-- `VERSION_FORM`
unfoldable pub has_version_form : String → Bool
has_version_form String.[] = false
has_version_form (String.◌∷◌ c s) =
    if code c == 48 then after_zero s else is_digit (code c) && after_digits s

abbrev pub classify : String → DeclaredSpecVersion
classify declared =
    if not (has_version_form declared)
    then malformed_version
    else elim (supported_spec_version declared) [
      | some v ↦ supported_version v
      | none ↦ unsupported_version declared
    ]

abbrev pub declared_value : Value → DeclaredSpecVersion
declared_value (str declared) = classify declared
declared_value v = malformed_version

-- `declaredSpecVersion`
unfoldable pub declared_spec_version : Value → DeclaredSpecVersion
declared_spec_version (obj fs) = declared_value (member fs "specVersion")
declared_spec_version event = malformed_version

-- `NOT_EVALUATED_KEYWORD`
abbrev pub not_evaluated_keyword : String
not_evaluated_keyword = "specVersion-not-implemented"

-- `wasNotEvaluated`
abbrev pub was_not_evaluated : List ValidationIssue → Bool
was_not_evaluated (issue ∷ []) = issue.keyword === not_evaluated_keyword
was_not_evaluated issues = false

abbrev pub not_evaluated : String → ValidationIssue
not_evaluated version = record {
  path = "/specVersion";
  keyword = not_evaluated_keyword;
  message =
      "specVersion \"" +++ version
      +++ "\" is not a version this tool implements, so the event was not evaluated";
  detail = some "implemented: 0.1, 1.0";
}

-- `validateEvent` of `createVersionedValidator`, for a validator of every supported version
unfoldable pub versioned_validator : (SpecVersion → Validator) → Validator
versioned_validator by_version event = elim (declared_spec_version event) [
  | supported_version v ↦ by_version v event
  | unsupported_version version ↦ not_evaluated version ∷ []
  | malformed_version ↦ by_version version_1_0 event
]
