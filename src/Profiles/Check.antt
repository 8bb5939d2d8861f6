-- ===== src/Profiles/Check.antt =====
-- conformance/src/profiles/check-profile.ts: one event against one profile.
use open_audit_model.Common.{
  ◌-◌, String, Bool, true, false, not, Option, none, some, List, [], ◌∷◌, map, if◌then◌else◌,
  length, take, flat_map,
}
use open_audit_model.Json.{Value, as_string}
use open_audit_model.Json.Pointer.{resolve_pointer, value_of}
use open_audit_model.Integrity.Findings.{Validator, ValidationIssue}
use open_audit_model.Profiles.Types.{
  supports_core_version, conforming, violations, not_applicable, core_invalid, ProfileRule,
  ProfileDefinition, ProfileFinding, ProfileCheckResult,
}
use open_audit_model.Profiles.Rules.{event_name, select_rules}
use open_audit_model.Profiles.Evaluate.{evaluate_rule}

-- `eventIdentity`
abbrev pub event_identity : Value → Option String
event_identity event = as_string (value_of (resolve_pointer event "/id"))

-- The loop over the selected rules: the errors, and the warnings.
abbrev pub rule_errors : Value → List ProfileRule → List ProfileFinding
rule_errors event rules = flat_map (λ rule. (evaluate_rule event rule).errors) rules

abbrev pub rule_warnings : Value → List ProfileRule → List ProfileFinding
rule_warnings event rules = flat_map (λ rule. (evaluate_rule event rule).warnings) rules

abbrev pub no_findings : List ProfileFinding → Bool
no_findings [] = true
no_findings (f ∷ fs) = false

module _ (event : Value) (label : String) where
  abbrev pub invalid_core : List ValidationIssue → ProfileCheckResult
  invalid_core issues = record {
    label = label;
    event_id = event_identity event;
    status = core_invalid;
    core_valid = false;
    profile_valid = false;
    matched_rules = [];
    errors = [];
    warnings = [];
    core_issues = take 5 issues;
    further_issues = length issues - 5;
  }

  abbrev pub out_of_scope : ProfileCheckResult
  out_of_scope = record {
    label = label;
    event_id = event_identity event;
    status = not_applicable;
    core_valid = true;
    profile_valid = true;
    matched_rules = [];
    errors = [];
    warnings = [];
    core_issues = [];
    further_issues = 0;
  }

  abbrev pub judged : List ProfileRule → ProfileCheckResult
  judged rules =
      let errors = rule_errors event rules in
      record {
        label = label;
        event_id = event_identity event;
        status = if no_findings errors then conforming else violations;
        core_valid = true;
        profile_valid = no_findings errors;
        matched_rules = map (λ rule. rule.id) rules;
        errors = errors;
        warnings = rule_warnings event rules;
        core_issues = [];
        further_issues = 0;
      }

  abbrev pub with_rules : List ProfileRule → ProfileCheckResult
  with_rules [] = out_of_scope
  with_rules (rule ∷ rules) = judged (rule ∷ rules)

  module _ (profile : ProfileDefinition) where
    abbrev pub with_name : Option String → ProfileCheckResult
    with_name none = out_of_scope
    with_name (some name) = with_rules (select_rules profile name)

    -- The check after core validation.
    abbrev pub check_rules : ProfileCheckResult
    check_rules =
        if not (supports_core_version profile (value_of (resolve_pointer event "/specVersion")))
        then out_of_scope
        else with_name (event_name event)

    abbrev pub after_core : List ValidationIssue → ProfileCheckResult
    after_core [] = check_rules
    after_core (issue ∷ issues) = invalid_core (issue ∷ issues)

    -- `checkProfile`; `validate_core` is `options.validateCore !== false`
    unfoldable pub check_profile : Validator → Bool → ProfileCheckResult
    check_profile validator validate_core =
        if validate_core then after_core (validator event) else check_rules
