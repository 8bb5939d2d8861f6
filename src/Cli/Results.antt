-- ===== src/Cli/Results.antt =====
-- What the status of a result says of its findings.
use open_audit_model.Common.{
  String, ◌≡◌, refl, inl, inr, true, Option, some, List, [], ◌∷◌, arith, Bool-cases, length, All,
  none, ltb, if◌then◌else◌,
}
use open_audit_model.Json.{Value}
use open_audit_model.Integrity.Findings.{Validator, ValidationIssue}
use open_audit_model.Privacy.Platform.{Platform}
use open_audit_model.Privacy.Rules.{LintStatus, PrivacyFinding}
use open_audit_model.Privacy.LintEvent.Report.{lint_event, status_of}
use open_audit_model.Profiles.Types.{
  is_violating, conforming, ProfileDefinition, supports_core_version, violations, ProfileRule,
  ProfileFinding, ProfileCheckResult,
}
use open_audit_model.Profiles.Check.{
  check_profile, rule_errors, no_findings, with_rules, with_name, check_rules, after_core,
}
use open_audit_model.Profiles.Rules.{select_rules, event_name}
use open_audit_model.Json.Pointer.{value_of, resolve_pointer}
use open_audit_model.Cli.Verdicts.{WasClean}

pub All-weaken :
    {A : Type 0} {P Q : A → Type 0} → ((a : A) → P a → Q a) → (xs : List A) → All P xs → All Q xs
All-weaken f [] t = tt
All-weaken f (x ∷ xs) (p, ps) = (f x p, All-weaken f xs ps)

pub lint_event-clean :
    (platform : Platform) (event : Value) (label : String) (validator : Validator)
    → WasClean (lint_event platform event label validator true)
    → (lint_event platform event label validator true).status ≡ LintStatus.clean
unfolding lint_event
lint_event-clean platform event label validator h =
    elim (Bool-cases (ltb 0 (length (validator event)))) [
      | inl refused ↦ absurd (h.1 (rw refused refl))
      | inr admitted ↦ rw admitted (no_status _ (rw admitted at h.0))
    ]
  where
    no_status : (fs : List PrivacyFinding) → length fs ≡ 0 → status_of fs ≡ LintStatus.clean
    no_status [] e = refl
    no_status (f ∷ fs) e = absurd (omega (arith, e))

module _ (event : Value) (label : String) where
  abbrev pub Consistent : ProfileCheckResult → Type 0
  Consistent r = length r.errors ≡ 0 → is_violating r.status ≡ 0

  judged_status :
      (fs : List ProfileFinding)
      → length fs ≡ 0
      → is_violating (if no_findings fs then conforming else violations) ≡ 0
  judged_status [] e = refl
  judged_status (f ∷ fs) e = absurd (omega (arith, e))

  with_rules-Consistent : (rules : List ProfileRule) → Consistent (with_rules event label rules)
  with_rules-Consistent [] e = refl
  with_rules-Consistent (r ∷ rs) e = judged_status (rule_errors event (r ∷ rs)) e

  module _ (profile : ProfileDefinition) where
    with_name-Consistent : (name : Option String) → Consistent (with_name event label profile name)
    with_name-Consistent none e = refl
    with_name-Consistent (some name) e = with_rules-Consistent (select_rules profile name) e

    check_rules-Consistent : Consistent (check_rules event label profile)
    check_rules-Consistent =
        elim (Bool-cases
          (supports_core_version profile (value_of (resolve_pointer event "/specVersion")))) [
            | inr n ↦ rw n (λ e. refl)
            | inl s ↦ rw s (with_name-Consistent (event_name event))
          ]

    after_core-Consistent :
        (issues : List ValidationIssue) → Consistent (after_core event label profile issues)
    after_core-Consistent [] e = check_rules-Consistent e
    after_core-Consistent (i ∷ is) e = refl

    pub check_profile-Consistent :
        (validator : Validator) → Consistent (check_profile event label profile validator true)
    unfolding check_profile
    check_profile-Consistent validator e = after_core-Consistent (validator event) e
