-- ===== src/Profiles/Evaluate.antt =====
-- conformance/src/profiles/evaluate-rule.ts: one rule against one event.
use open_audit_model.Common.{
  String, Bool, true, false, not, none, some, List, [], ◌++◌, map, if◌then◌else◌, value_or, select,
  ◌+++◌,
}
use open_audit_model.Json.{Value}
use open_audit_model.Json.Pointer.{resolve_pointer, value_of, is_present, matches_metadata_type}
use open_audit_model.Profiles.Types.{
  same_scalar, RuleSeverity, warning, error, Comparison, RequiredMetadata, ProfileRule,
  ProfileFinding,
}

-- `concatPointer` of conformance/src/profiles/resolve-pointer.ts
abbrev pub concat_pointer : String → String → String
concat_pointer base relative = base +++ relative

-- `conditionHolds`
unfoldable pub condition_holds : Value → Comparison → Bool
condition_holds event condition = elim (resolve_pointer event condition.path) [
  | none ↦ false
  | some value ↦ same_scalar value condition.equals
]

-- `RuleEvaluation`
pub record RuleEvaluation : Type 0 where
  pub applied : Bool
  pub errors : List ProfileFinding
  pub warnings : List ProfileFinding

abbrev pub finding : String → RuleSeverity → String → ProfileFinding
finding rule_id severity path = record { rule_id = rule_id; path = path; severity = severity }

-- The paths that are absent or empty.
abbrev pub missing_paths : Value → List String → List String
missing_paths event paths =
    select (λ pointer. not (is_present (resolve_pointer event pointer))) paths

abbrev pub metadata_pointer : RequiredMetadata → String
metadata_pointer requirement = concat_pointer "/metadata" requirement.path

-- Whether required metadata is there, with its type.
abbrev pub metadata_met : Value → RequiredMetadata → Bool
metadata_met event requirement =
    let resolved = resolve_pointer event (metadata_pointer requirement) in
    if not (is_present resolved)
    then false
    else matches_metadata_type (value_of resolved) requirement.type_name

-- The failures of a rule, by their paths, in order.
abbrev pub failures : Value → ProfileRule → List String
failures event rule =
    missing_paths event rule.required_paths
    ++ (map metadata_pointer (select (λ r. not (metadata_met event r)) rule.required_metadata)
        ++ map (λ r. r.path) (select (λ r. not (condition_holds event r)) rule.required_values))

abbrev pub severity_of : ProfileRule → RuleSeverity
severity_of rule = value_or rule.severity error

abbrev pub is_error : RuleSeverity → Bool
is_error error = true
is_error s = false

-- A rule that applies.
abbrev pub applied_rule : Value → ProfileRule → RuleEvaluation
applied_rule event rule =
    let failed = map (finding rule.id (severity_of rule)) (failures event rule) in
    let warned = map (finding rule.id warning) (missing_paths event rule.recommended_paths) in
    if is_error (severity_of rule)
    then record { applied = true; errors = failed; warnings = warned }
    else record { applied = true; errors = []; warnings = failed ++ warned }

-- `rule.when === undefined || conditionHolds(event, rule.when)`
abbrev pub applies : Value → ProfileRule → Bool
applies event rule = elim rule.when [
  | none ↦ true
  | some condition ↦ condition_holds event condition
]

-- `evaluateRule`
unfoldable pub evaluate_rule : Value → ProfileRule → RuleEvaluation
evaluate_rule event rule =
    if not (applies event rule)
    then record { applied = false; errors = []; warnings = [] }
    else applied_rule event rule
