-- ===== src/Profiles/Verdict.antt =====
-- When an event conforms to a profile.
use open_audit_model.Common.{
  String, ◌≡◌, refl, sym, subst, ◌≢◌, ◌↔◌, inl, inr, Bool, true, false, not, Option, none, some,
  List, [], ◌∷◌, ◌++◌, map, if◌then◌else◌, Bool-cases, select, All, some_inj,
}
use open_audit_model.Json.{Value}
use open_audit_model.Json.Pointer.{resolve_pointer, value_of, is_present}
use open_audit_model.Integrity.Findings.{Validator, ValidationIssue}
use open_audit_model.Profiles.Types.{
  supports_core_version, conforming, violations, ProfileRule, ProfileDefinition, ProfileFinding,
}
use open_audit_model.Profiles.Rules.{event_name, select_rules}
use open_audit_model.Profiles.Evaluate.{
  condition_holds, finding, metadata_pointer, metadata_met, failures, severity_of, is_error,
  applies, evaluate_rule,
}
use open_audit_model.Profiles.Check.{
  rule_errors, no_findings, with_rules, check_rules, after_core, check_profile, with_name,
}

-- What a rule of severity error asks of an event to which it applies.
pub record IsMet (event : Value) (rule : ProfileRule) : Type 0 where
  pub paths : All (λ p. is_present (resolve_pointer event p) ≡ true) rule.required_paths
  pub metadata : All (λ r. metadata_met event r ≡ true) rule.required_metadata
  pub values : All (λ r. condition_holds event r ≡ true) rule.required_values

-- A rule that an event does not fail.
abbrev pub Passes : Value → ProfileRule → Type 0
Passes event rule =
    applies event rule ≡ true → is_error (severity_of rule) ≡ true → IsMet event rule

no_select_iff {ℓ} :
    {A : Type ℓ} (p : A → Bool) (xs : List A)
    → (select (λ x. not (p x)) xs ≡ []) ↔ All (λ x. p x ≡ true) xs
no_select_iff p [] = (λ e. tt, λ h. refl)
no_select_iff p (x ∷ xs) = elim (Bool-cases (p x)) [
  | inl t ↦ (λ e. (t, (no_select_iff p xs).0 (rw t at e)), λ h. rw t ((no_select_iff p xs).1 h.1))
  | inr f ↦ (λ e. cc (rw f at e), λ h. cc (h.0, f))
]

append_nil_iff {ℓ} : {A : Type ℓ} (xs ys : List A) → (xs ++ ys ≡ []) ↔ ((xs ≡ []) × (ys ≡ []))
append_nil_iff [] ys = (λ e. (refl, e), λ p. p.1)
append_nil_iff (x ∷ xs) ys = (λ e. cc, λ p. cc p.0)

map_nil_iff {ℓ κ} :
    {A : Type ℓ} {B : Type κ} (f : A → B) (xs : List A) → (map f xs ≡ []) ↔ (xs ≡ [])
map_nil_iff f [] = (λ e. refl, λ e. refl)
map_nil_iff f (x ∷ xs) = (λ e. cc, λ e. cc)

failures_iff : (event : Value) (rule : ProfileRule) → (failures event rule ≡ []) ↔ IsMet event rule
failures_iff event rule = (
  λ e.
      let (a, b) = (append_nil_iff _ _).0 e in
      let (c, d) = (append_nil_iff _ _).0 b in
      record {
        paths = (no_select_iff (λ p. is_present (resolve_pointer event p)) rule.required_paths).0 a;
        metadata =
            (no_select_iff (metadata_met event) rule.required_metadata).0
              ((map_nil_iff metadata_pointer _).0 c);
        values =
            (no_select_iff (condition_holds event) rule.required_values).0
              ((map_nil_iff (λ r. r.path) _).0 d);
      },
  λ m. (append_nil_iff _ _).1 (
    (no_select_iff (λ p. is_present (resolve_pointer event p)) rule.required_paths).1 m.paths,
    (append_nil_iff _ _).1 (
      (map_nil_iff metadata_pointer _).1
          ((no_select_iff (metadata_met event) rule.required_metadata).1 m.metadata),
      (map_nil_iff (λ r. r.path) _).1
          ((no_select_iff (condition_holds event) rule.required_values).1 m.values),
    ),
  ),
)

rule_passes_iff :
    (event : Value) (rule : ProfileRule)
    → ((evaluate_rule event rule).errors ≡ []) ↔ Passes event rule
unfolding evaluate_rule
rule_passes_iff event rule = elim (Bool-cases (applies event rule)) [
  | inr n ↦ (λ e a s. cc (a, n), λ h. rw n refl)
  | inl a ↦ elim (Bool-cases (is_error (severity_of rule))) [
    | inr n ↦ (λ e b s. cc (s, n), λ h. rw (a, n) refl)
    | inl s ↦ (
      λ e b t.
          (failures_iff event rule).0
            ((map_nil_iff (finding rule.id (severity_of rule)) _).0 (rw (a, s) at e)),
      λ h.
          rw (a, s)
            ((map_nil_iff (finding rule.id (severity_of rule)) _).1
              ((failures_iff event rule).1 (h a s))),
    )
  ]
]

pub rules_pass_iff :
    (event : Value) (rules : List ProfileRule)
    → (rule_errors event rules ≡ []) ↔ All (Passes event) rules
rules_pass_iff event [] = (λ e. tt, λ h. refl)
rules_pass_iff event (rule ∷ rules) = (
  λ e.
      let (a, b) =
        (append_nil_iff (evaluate_rule event rule).errors (rule_errors event rules)).0 e in
      ((rule_passes_iff event rule).0 a, (rules_pass_iff event rules).0 b),
  λ h.
      (append_nil_iff (evaluate_rule event rule).errors (rule_errors event rules)).1
        ((rule_passes_iff event rule).1 h.0, (rules_pass_iff event rules).1 h.1),
)

-- What a conforming event is.
pub record Conforms (event : Value) (profile : ProfileDefinition) : Type 0 where
  pub name : String
  pub supported :
      supports_core_version profile (value_of (resolve_pointer event "/specVersion")) ≡ true
  pub named : event_name event ≡ some name
  pub governed : select_rules profile name ≢ []
  pub passes : All (Passes event) (select_rules profile name)

-- What core validation needs, where it is asked for.
abbrev pub CoreValid : Validator → Bool → Value → Type 0
CoreValid validator validate_core event = validate_core ≡ true → validator event ≡ []

module _ (event : Value) (label : String) (profile : ProfileDefinition) where
  judged_iff :
      (rules : List ProfileRule)
      → ((with_rules event label rules).status ≡ conforming)
        ↔ ((rules ≢ []) × All (Passes event) rules)
  judged_iff [] = (λ e. cc, λ p. absurd (p.0 refl))
  judged_iff (rule ∷ rules) = (
    λ e. (
      λ n. cc,
      (rules_pass_iff event (rule ∷ rules)).0 (empty (rule_errors event (rule ∷ rules)) e),
    ),
    λ p. rw ((rules_pass_iff event (rule ∷ rules)).1 p.1) refl,
  )
    where
      empty :
          (fs : List ProfileFinding)
          → (if no_findings fs then conforming else violations) ≡ conforming
          → fs ≡ []
      empty [] e = refl
      empty (f ∷ fs) e = cc

  after_name :
      (o : Option String)
      → ((with_name event label profile o).status ≡ conforming) ↔ (
          (name : String) × (o ≡ some name)
          × (select_rules profile name ≢ [])
          × All (Passes event) (select_rules profile name))
  after_name none = (λ e. cc, λ p. cc p.1)
  after_name (some name) = (
    λ e. let (a, b) = (judged_iff (select_rules profile name)).0 e in (name, refl, a, b),
    λ p. (judged_iff (select_rules profile name)).1 (
        subst (λ n. (select_rules profile n ≢ []) × All (Passes event) (select_rules profile n))
          (sym (some_inj p.1)) (p.2, p.3)),
  )

  check_rules_iff : ((check_rules event label profile).status ≡ conforming) ↔ Conforms event profile
  check_rules_iff =
      elim (Bool-cases
        (supports_core_version profile (value_of (resolve_pointer event "/specVersion")))) [
          | inr n ↦ (λ e. cc (rw n at e), λ c. cc (c.supported, n))
          | inl s ↦ (
            λ e.
                let (name, n, g, p) = (after_name (event_name event)).0 (rw s at e) in
                record { name = name; supported = s; named = n; governed = g; passes = p },
            λ c. rw s ((after_name (event_name event)).1 (c.name, c.named, c.governed, c.passes)),
          )
        ]

  -- An event is reported conforming exactly when the core schema admits it, where core validation is
  -- asked for, the profile covers its core version, its name selects at least one rule, and it meets
  -- every selected rule of severity error whose condition holds.
  pub check_profile-conforming_iff :
      (validator : Validator) (validate_core : Bool)
      → ((check_profile event label profile validator validate_core).status ≡ conforming)
        ↔ (CoreValid validator validate_core event × Conforms event profile)
  unfolding check_profile
  check_profile-conforming_iff validator false =
      (λ e. (λ h. absurd cc, check_rules_iff.0 e), λ p. check_rules_iff.1 p.1)
  check_profile-conforming_iff validator true = (
    λ e. let (n, c) = (core (validator event)).0 e in (λ h. n, c),
    λ p. (core (validator event)).1 (p.0 refl, p.1),
  )
    where
      core :
          (issues : List ValidationIssue)
          → ((after_core event label profile issues).status ≡ conforming)
            ↔ ((issues ≡ []) × Conforms event profile)
      core [] = (λ e. (refl, check_rules_iff.0 e), λ p. check_rules_iff.1 p.1)
      core (i ∷ is) = (λ e. cc, λ p. cc p.0)
