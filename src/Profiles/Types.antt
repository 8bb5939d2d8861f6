-- ===== src/Profiles/Types.antt =====
-- conformance/src/profiles/types.ts: profile definitions, the results of a check, and their tally.
-- Texts that nothing reads (titles, descriptions, messages) are not modelled.
use open_audit_model.Common.{
  ℕ, ◌+◌, String, Bool, true, false, not, Option, List, [], ◌∷◌, length, ◌===◌, includes,
}
use open_audit_model.Json.{Number, same_number, Value, null, bool, num, str}
use open_audit_model.Integrity.Findings.{ValidationIssue}

-- `SUPPORTED_PROFILE_VERSIONS`
abbrev pub supported_profile_versions : List String
supported_profile_versions = "0.1" ∷ []

-- `implementsProfileVersion`
abbrev pub implements_profile_version : Value → Bool
implements_profile_version (str version) = includes supported_profile_versions version
implements_profile_version v = false

-- `RuleSeverity`
pub data RuleSeverity : Type 0 where
  info warning error : RuleSeverity

-- `Scalar`
pub data Scalar : Type 0 where
  text : String → Scalar
  number : Number → Scalar
  boolean : Bool → Scalar
  nothing : Scalar

abbrev same_bool : Bool → Bool → Bool
same_bool true b = b
same_bool false b = not b

-- `Object.is(value, scalar)`
abbrev pub same_scalar : Value → Scalar → Bool
same_scalar (str s) (text t) = s === t
same_scalar (num m) (number n) = same_number m n
same_scalar (bool a) (boolean b) = same_bool a b
same_scalar null nothing = true
same_scalar _ _ = false

-- `Condition`, `RequiredValue`
pub record Comparison : Type 0 where
  pub path : String
  pub equals : Scalar

-- `RequiredMetadata`
pub record RequiredMetadata : Type 0 where
  pub path : String
  pub type_name : String

-- `ProfileRule`; a list that is not given is the empty list, which the source takes for it
pub record ProfileRule : Type 0 where
  pub id : String
  pub severity : Option RuleSeverity
  pub events : List String
  pub event_prefixes : List String
  pub when : Option Comparison
  pub required_paths : List String
  pub required_metadata : List RequiredMetadata
  pub required_values : List Comparison
  pub recommended_paths : List String

-- `ProfileDefinition`
pub record ProfileDefinition : Type 0 where
  pub name : String
  pub version : String
  pub status : String
  pub core_versions : List String
  pub rules : List ProfileRule

-- `ProfileStatus`
pub data ProfileStatus : Type 0 where
  conforming violations not_applicable core_invalid : ProfileStatus

-- `ProfileFinding`
pub record ProfileFinding : Type 0 where
  pub rule_id : String
  pub path : String
  pub severity : RuleSeverity

-- `ProfileCheckResult`; the core issues are the ones shown, and how many are not
pub record ProfileCheckResult : Type 0 where
  pub label : String
  pub event_id : Option String
  pub status : ProfileStatus
  pub core_valid : Bool
  pub profile_valid : Bool
  pub matched_rules : List String
  pub errors : List ProfileFinding
  pub warnings : List ProfileFinding
  pub core_issues : List ValidationIssue
  pub further_issues : ℕ

-- `ProfileTally`, `ProfileCheckSummary`
pub record ProfileTally : Type 0 where
  pub events : ℕ
  pub conforming_events : ℕ
  pub violating_events : ℕ
  pub not_applicable_events : ℕ
  pub core_invalid_events : ℕ
  pub errors : ℕ
  pub warnings : ℕ

-- `startProfileTally`
abbrev pub start_profile_tally : ProfileTally
start_profile_tally = record {
  events = 0;
  conforming_events = 0;
  violating_events = 0;
  not_applicable_events = 0;
  core_invalid_events = 0;
  errors = 0;
  warnings = 0;
}

abbrev pub is_conforming : ProfileStatus → ℕ
is_conforming conforming = 1
is_conforming s = 0

abbrev pub is_violating : ProfileStatus → ℕ
is_violating violations = 1
is_violating s = 0

abbrev pub is_not_applicable : ProfileStatus → ℕ
is_not_applicable not_applicable = 1
is_not_applicable s = 0

abbrev pub is_core_invalid : ProfileStatus → ℕ
is_core_invalid core_invalid = 1
is_core_invalid s = 0

-- `addToProfileTally`
abbrev pub add_to_profile_tally : ProfileTally → ProfileCheckResult → ProfileTally
add_to_profile_tally tally result = record {
  events = tally.events + 1;
  conforming_events = tally.conforming_events + is_conforming result.status;
  violating_events = tally.violating_events + is_violating result.status;
  not_applicable_events = tally.not_applicable_events + is_not_applicable result.status;
  core_invalid_events = tally.core_invalid_events + is_core_invalid result.status;
  errors = tally.errors + length result.errors;
  warnings = tally.warnings + length result.warnings;
}

-- the loop of `summariseProfileResults`
abbrev pub add_results : ProfileTally → List ProfileCheckResult → ProfileTally
add_results tally [] = tally
add_results tally (result ∷ results) = add_results (add_to_profile_tally tally result) results

-- `summariseProfileResults`
abbrev pub summarise_profile_results : List ProfileCheckResult → ProfileTally
summarise_profile_results results = add_results start_profile_tally results

-- `supportsCoreVersion`
abbrev pub supports_core_version : ProfileDefinition → Value → Bool
supports_core_version profile (str version) = includes profile.core_versions version
supports_core_version profile v = false
