-- ===== src/Profiles/Severity.antt =====
-- Which findings can fail an event, and what a result's parts say together.
use open_audit_model.Common.{
  String, ◌≡◌, refl, subst, ◌≢◌, ◌↔◌, ◌⊎◌, inl, inr, Bool, true, false, Option, none, some, List,
  [], ◌∷◌, map, if◌then◌else◌, Bool-cases, All, All-append,
}
use open_audit_model.Json.{Value}
use open_audit_model.Json.Pointer.{resolve_pointer, value_of}
use open_audit_model.Integrity.Findings.{Validator, ValidationIssue}
use open_audit_model.Profiles.Types.{
  supports_core_version, ProfileStatus, conforming, violations, not_applicable, core_invalid,
  ProfileRule, ProfileDefinition, ProfileFinding, ProfileCheckResult,
}
use open_audit_model.Profiles.Rules.{event_name, select_rules}
use open_audit_model.Profiles.Evaluate.{
  finding, failures, severity_of, is_error, applies, evaluate_rule,
}
use open_audit_model.Profiles.Check.{
  rule_errors, no_findings, invalid_core, out_of_scope, judged, with_rules, with_name, check_rules,
  after_core, check_profile,
}

abbrev pub IsError : ProfileFinding → Type 0
IsError f = is_error f.severity ≡ true

errors_of_rule :
    (event : Value) (rule : ProfileRule) → All IsError (evaluate_rule event rule).errors
unfolding evaluate_rule
errors_of_rule event rule = elim (Bool-cases (applies event rule)) [
  | inr n ↦ rw n tt
  | inl a ↦ elim (Bool-cases (is_error (severity_of rule))) [
    | inr n ↦ rw (a, n) tt
    | inl s ↦ rw (a, s) (marked (failures event rule) s)
  ]
]
  where
    marked :
        (paths : List String)
        → is_error (severity_of rule) ≡ true
        → All IsError (map (finding rule.id (severity_of rule)) paths)
    marked [] s = tt
    marked (p ∷ ps) s = (s, marked ps s)

errors_of_rules : (event : Value) (rules : List ProfileRule) → All IsError (rule_errors event rules)
errors_of_rules event [] = tt
errors_of_rules event (rule ∷ rules) =
    All-append IsError (evaluate_rule event rule).errors (rule_errors event rules)
      (errors_of_rule event rule) (errors_of_rules event rules)

-- What every result of a check is.
pub record IsCoherent (result : ProfileCheckResult) : Type 0 where
  pub only_errors : All IsError result.errors
  pub valid_iff :
      (result.profile_valid ≡ true)
      ↔ ((result.status ≡ conforming) ⊎ (result.status ≡ not_applicable))
  pub violating_iff : (result.status ≡ violations) ↔ (result.errors ≢ [])
  pub core_iff : (result.core_valid ≡ false) ↔ (result.status ≡ core_invalid)
  pub unmatched : result.status ≡ core_invalid → result.matched_rules ≡ []

module _ (event : Value) (label : String) where
  out_of_scope-IsCoherent : IsCoherent (out_of_scope event label)
  out_of_scope-IsCoherent = record {
    only_errors = tt;
    valid_iff = (λ e. inr refl, λ p. refl);
    violating_iff = (λ e. absurd cc, λ n. absurd (n refl));
    core_iff = (λ e. cc, λ e. cc);
    unmatched = λ e. cc;
  }

  invalid_core-IsCoherent :
      (issues : List ValidationIssue) → IsCoherent (invalid_core event label issues)
  invalid_core-IsCoherent issues = record {
    only_errors = tt;
    valid_iff = (λ e. cc, λ p. elim p [ inl e ↦ cc e | inr e ↦ cc e ]);
    violating_iff = (λ e. absurd cc, λ n. absurd (n refl));
    core_iff = (λ e. refl, λ e. refl);
    unmatched = λ e. refl;
  }

  judged-IsCoherent : (rules : List ProfileRule) → IsCoherent (judged event label rules)
  judged-IsCoherent rules = record {
    only_errors = errors_of_rules event rules;
    valid_iff = valid (rule_errors event rules);
    violating_iff = violating (rule_errors event rules);
    core_iff = (λ e. cc, λ e. absurd (core (rule_errors event rules) e));
    unmatched = λ e. absurd (core (rule_errors event rules) e);
  }
    where
      status_of : List ProfileFinding → ProfileStatus
      status_of fs = if no_findings fs then conforming else violations

      valid :
          (fs : List ProfileFinding)
          → (no_findings fs ≡ true)
            ↔ ((status_of fs ≡ conforming) ⊎ (status_of fs ≡ not_applicable))
      valid [] = (λ e. inl refl, λ p. refl)
      valid (f ∷ fs) = (λ e. cc, λ p. elim p [ inl e ↦ cc e | inr e ↦ cc e ])

      violating : (fs : List ProfileFinding) → (status_of fs ≡ violations) ↔ (fs ≢ [])
      violating [] = (λ e. absurd cc, λ n. absurd (n refl))
      violating (f ∷ fs) = (λ e n. cc, λ n. refl)

      core : (fs : List ProfileFinding) → status_of fs ≡ core_invalid → ⊥
      core [] e = cc
      core (f ∷ fs) e = cc

  with_name-IsCoherent :
      (profile : ProfileDefinition) (o : Option String)
      → IsCoherent (with_name event label profile o)
  with_name-IsCoherent profile none = out_of_scope-IsCoherent
  with_name-IsCoherent profile (some name) = go (select_rules profile name)
    where
      go : (rules : List ProfileRule) → IsCoherent (with_rules event label rules)
      go [] = out_of_scope-IsCoherent
      go (rule ∷ rules) = judged-IsCoherent (rule ∷ rules)

  check_rules-IsCoherent :
      (profile : ProfileDefinition) → IsCoherent (check_rules event label profile)
  check_rules-IsCoherent profile =
      elim (Bool-cases
        (supports_core_version profile (value_of (resolve_pointer event "/specVersion")))) [
          | inr n ↦ subst IsCoherent (rw n refl) out_of_scope-IsCoherent
          | inl s ↦ subst IsCoherent (rw s refl) (with_name-IsCoherent profile (event_name event))
        ]

-- What core validation found against the event, where it is asked for.
abbrev pub CoreFails : Validator → Bool → Value → Type 0
CoreFails validator validate_core event = (validate_core ≡ true) × (validator event ≢ [])

module _ (event : Value) (label : String) (profile : ProfileDefinition) where
  judged-core_valid : (rules : List ProfileRule) → (judged event label rules).status ≢ core_invalid
  judged-core_valid rules = go (rule_errors event rules)
    where
      go :
          (fs : List ProfileFinding)
          → (if no_findings fs then conforming else violations) ≢ core_invalid
      go [] e = cc
      go (f ∷ fs) e = cc

  with_name-core_valid :
      (o : Option String) → (with_name event label profile o).status ≢ core_invalid
  with_name-core_valid none e = cc
  with_name-core_valid (some name) e = go (select_rules profile name) e
    where
      go : (rules : List ProfileRule) → (with_rules event label rules).status ≢ core_invalid
      go [] e = cc
      go (rule ∷ rules) e = judged-core_valid (rule ∷ rules) e

  check_rules-core_valid : (check_rules event label profile).status ≢ core_invalid
  check_rules-core_valid e =
      elim (Bool-cases
        (supports_core_version profile (value_of (resolve_pointer event "/specVersion")))) [
          | inr n ↦ cc (rw n at e)
          | inl s ↦ with_name-core_valid (event_name event) (rw s at e)
        ]

  core_invalid_iff :
      (validator : Validator) (validate_core : Bool)
      → ((check_profile event label profile validator validate_core).status ≡ core_invalid)
        ↔ CoreFails validator validate_core event
  unfolding check_profile
  core_invalid_iff validator false = (λ e. absurd (check_rules-core_valid e), λ p. cc p.0)
  core_invalid_iff validator true = core (validator event)
    where
      core :
          (issues : List ValidationIssue)
          → ((after_core event label profile issues).status ≡ core_invalid)
            ↔ ((true ≡ true) × (issues ≢ []))
      core [] = (λ e. absurd (check_rules-core_valid e), λ p. absurd (p.1 refl))
      core (i ∷ is) = (λ e. (refl, λ n. cc), λ p. refl)

coherent :
    (event : Value) (label : String) (profile : ProfileDefinition) (validator : Validator)
    (validate_core : Bool)
    → IsCoherent (check_profile event label profile validator validate_core)
unfolding check_profile
coherent event label profile validator false = check_rules-IsCoherent event label profile
coherent event label profile validator true = core (validator event)
  where
    core : (issues : List ValidationIssue) → IsCoherent (after_core event label profile issues)
    core [] = check_rules-IsCoherent event label profile
    core (i ∷ is) = invalid_core-IsCoherent event label (i ∷ is)

-- A result holds together, whatever the event: its errors are findings of severity error alone, so
-- that a rule of a lower severity never fails an event; it is profile valid exactly when its status is
-- conforming or not applicable; it has violations exactly when it has errors; it is core invalid
-- exactly when core validation is asked for and the schema has an issue with the event, and then no
-- rule was matched.
pub check_profile-IsCoherent :
    (event : Value) (label : String) (profile : ProfileDefinition) (validator : Validator)
    (validate_core : Bool)
    → IsCoherent (check_profile event label profile validator validate_core)
      × (((check_profile event label profile validator validate_core).status ≡ core_invalid)
          ↔ CoreFails validator validate_core event)
check_profile-IsCoherent event label profile validator validate_core = (
  coherent event label profile validator validate_core,
  core_invalid_iff event label profile validator validate_core,
)
