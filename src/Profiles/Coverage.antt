-- ===== src/Profiles/Coverage.antt =====
-- conformance/src/profiles/coverage.ts: what a profile reached across a set of events.
use open_audit_model.Common.{
  ℕ, String, Bool, true, false, not, ◌&&◌, none, some, List, [], ◌∷◌, map, ltb, ◌==◌, if◌then◌else◌,
  length, select, ◌===◌, includes, Sign, sign_of_difference, sort, Counts, count_of, count_up,
}
use open_audit_model.Json.{Value}
use open_audit_model.Integrity.Digest.{property}
use open_audit_model.Profiles.Types.{
  summarise_profile_results, supports_core_version, RuleSeverity, ProfileStatus, core_invalid,
  ProfileRule, ProfileDefinition, ProfileCheckResult, ProfileTally,
}
use open_audit_model.Profiles.Rules.{event_name, select_rules}
use open_audit_model.Profiles.Evaluate.{severity_of, applies}

-- `counts.set(key, 0)`, at the start
abbrev pub set_zero : String → Counts → Counts
set_zero key [] = (key, 0) ∷ []
set_zero key ((k, n) ∷ counts) =
    let rest = set_zero key counts in if k === key then (k, 0) ∷ counts else (k, n) ∷ rest

abbrev pub zeros : List ProfileRule → Counts → Counts
zeros [] counts = counts
zeros (rule ∷ rules) counts = zeros rules (set_zero rule.id counts)

-- `RuleCoverage`
pub record RuleCoverage : Type 0 where
  pub rule_id : String
  pub severity : RuleSeverity
  pub selected : ℕ
  pub applied : ℕ
  pub failed : ℕ

-- `EventNameCoverage`
pub record EventNameCoverage : Type 0 where
  pub name : String
  pub events : ℕ
  pub governed : Bool

-- `ProfileCoverage`
pub record ProfileCoverage : Type 0 where
  pub events : ProfileTally
  pub total_rules : ℕ
  pub selected_rules : ℕ
  pub applied_rules : ℕ
  pub never_selected : List String
  pub selected_but_never_applied : List String
  pub per_rule : List RuleCoverage
  pub names : List EventNameCoverage
  pub distinct_names : ℕ
  pub governed_names : ℕ
  pub ungoverned_names : ℕ

-- The maps and the set that the loop over the events changes.
pub record CoverageState : Type 0 where
  pub selected : Counts
  pub applied : Counts
  pub failed : Counts
  pub name_counts : Counts
  pub governed : List String

-- One selected rule of an event.
abbrev pub count_rule : Value → List String → CoverageState → ProfileRule → CoverageState
count_rule event failing state rule = record {
  selected = count_up rule.id state.selected;
  applied = if applies event rule then count_up rule.id state.applied else state.applied;
  failed = if includes failing rule.id then count_up rule.id state.failed else state.failed;
  name_counts = state.name_counts;
  governed = state.governed;
}

abbrev pub count_rules : Value → List String → CoverageState → List ProfileRule → CoverageState
count_rules event failing state [] = state
count_rules event failing state (rule ∷ rules) =
    count_rules event failing (count_rule event failing state rule) rules

-- The name of an event, counted.
abbrev pub count_name : String → List ProfileRule → CoverageState → CoverageState
count_name name rules state = record {
  selected = state.selected;
  applied = state.applied;
  failed = state.failed;
  name_counts = count_up name state.name_counts;
  governed = elim rules [ [] ↦ state.governed | rule ∷ more ↦ name ∷ state.governed ];
}

abbrev pub was_judged : ProfileStatus → Bool
was_judged core_invalid = false
was_judged status = true

module _ (profile : ProfileDefinition) where
  abbrev pub count_named :
      Value → List String → String → List ProfileRule → CoverageState → CoverageState
  count_named event failing name rules state =
      count_rules event failing (count_name name rules state) rules

  -- One round of the loop over the events.
  unfoldable pub count_event : CoverageState → Value → ProfileCheckResult → CoverageState
  count_event state event result =
      if not (was_judged result.status) then state else elim (event_name event) [
        | none ↦ state
        | some name ↦
            if not (supports_core_version profile (property event "specVersion"))
            then state
            else count_named event (map (λ f. f.rule_id) result.errors) name
                (select_rules profile name) state
      ]

  -- The loop; an event without a result is passed over.
  abbrev pub count_events : CoverageState → List Value → List ProfileCheckResult → CoverageState
  count_events state [] results = state
  count_events state (event ∷ events) [] = state
  count_events state (event ∷ events) (result ∷ results) =
      count_events (count_event state event result) events results

  abbrev pub start_coverage : CoverageState
  start_coverage = record {
    selected = zeros profile.rules [];
    applied = zeros profile.rules [];
    failed = zeros profile.rules [];
    name_counts = [];
    governed = [];
  }

  abbrev pub rule_coverage : CoverageState → ProfileRule → RuleCoverage
  rule_coverage state rule = record {
    rule_id = rule.id;
    severity = severity_of rule;
    selected = count_of state.selected rule.id;
    applied = count_of state.applied rule.id;
    failed = count_of state.failed rule.id;
  }

  module _ (locale_compare : String → String → Sign) where
    -- The most frequent first, then by name.
    abbrev pub compare_names : EventNameCoverage → EventNameCoverage → Sign
    compare_names left right =
        if left.events == right.events
        then locale_compare left.name right.name
        else sign_of_difference right.events left.events

    abbrev pub name_coverage : CoverageState → List EventNameCoverage
    name_coverage state = sort compare_names (
        map
          (λ entry. record {
            name = entry.0;
            events = entry.1;
            governed = includes state.governed entry.0;
          })
          state.name_counts)

    -- The report that the loop's state gives.
    abbrev pub coverage_of : CoverageState → List ProfileCheckResult → ProfileCoverage
    coverage_of state results =
        let per_rule = map (rule_coverage state) profile.rules in
        let names = name_coverage state in
        record {
          events = summarise_profile_results results;
          total_rules = length profile.rules;
          selected_rules = length (select (λ r. ltb 0 r.selected) per_rule);
          applied_rules = length (select (λ r. ltb 0 r.applied) per_rule);
          never_selected = map (λ r. r.rule_id) (select (λ r. r.selected == 0) per_rule);
          selected_but_never_applied =
              map (λ r. r.rule_id) (select (λ r. ltb 0 r.selected && r.applied == 0) per_rule);
          per_rule = per_rule;
          names = names;
          distinct_names = length names;
          governed_names = length (select (λ n. n.governed) names);
          ungoverned_names = length (select (λ n. not n.governed) names);
        }

    -- `summariseCoverage`
    unfoldable pub summarise_coverage : List Value → List ProfileCheckResult → ProfileCoverage
    summarise_coverage events results =
        coverage_of (count_events start_coverage events results) results
