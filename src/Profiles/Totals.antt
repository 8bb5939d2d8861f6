-- ===== src/Profiles/Totals.antt =====
-- The counts over a set of events.
use open_audit_model.Common.{
  ℕ, ◌+◌, ◌≤◌, String, ◌≡◌, refl, sym, ◌∙◌, subst, inl, inr, Bool, true, false, List, [], ◌∷◌, map,
  arith, if◌then◌else◌, Bool-cases, Option-cases, length, All, ◌===◌, ===→≡, ≡→===, includes,
  true-ne-false, Sign, Counts, count_of, count_up,
}
use open_audit_model.Json.{Value}
use open_audit_model.Integrity.Digest.{property}
use open_audit_model.Profiles.Types.{
  start_profile_tally, is_conforming, is_violating, is_not_applicable, is_core_invalid,
  add_to_profile_tally, add_results, summarise_profile_results, supports_core_version,
  ProfileStatus, conforming, violations, not_applicable, core_invalid, ProfileRule,
  ProfileDefinition, ProfileCheckResult, ProfileTally,
}
use open_audit_model.Profiles.Rules.{event_name, select_rules}
use open_audit_model.Profiles.Evaluate.{applies}
use open_audit_model.Profiles.Coverage.{
  count_rule, count_rules, count_name, was_judged, count_event, count_events, start_coverage,
  rule_coverage, summarise_coverage, RuleCoverage, CoverageState,
}

-- What the events of a tally are.
abbrev pub split_events : ProfileTally → ℕ
split_events t =
    t.conforming_events + t.violating_events + t.not_applicable_events + t.core_invalid_events

one_status :
    (s : ProfileStatus)
    → is_conforming s + is_violating s + is_not_applicable s + is_core_invalid s ≡ 1
one_status conforming = refl
one_status violations = refl
one_status not_applicable = refl
one_status core_invalid = refl

add_results-split :
    (results : List ProfileCheckResult) (t : ProfileTally)
    → split_events t ≡ t.events
    → (split_events (add_results t results) ≡ (add_results t results).events)
      × ((add_results t results).events ≡ t.events + length results)
add_results-split [] t e = (e, omega arith)
add_results-split (r ∷ rs) t e =
    let (a, b) =
      add_results-split rs (add_to_profile_tally t r) (omega (arith, one_status r.status)) in
    (a, omega arith)

-- Every result is counted once: the events of a summary are the results, and each is conforming, in
-- violation, not applicable or core invalid, and only one of these.
pub summarise_profile_results-split :
    (results : List ProfileCheckResult)
    → (split_events (summarise_profile_results results)
        ≡ (summarise_profile_results results).events)
      × ((summarise_profile_results results).events ≡ length results)
summarise_profile_results-split results =
    let (a, b) = add_results-split results start_profile_tally refl in (a, b ∙ omega arith)

count_of-count_up :
    (key i : String) (counts : Counts)
    → count_of (count_up key counts) i
      ≡ (if key === i then count_of counts i + 1 else count_of counts i)
count_of-count_up key i [] = elim (Bool-cases (key === i)) [ inl e ↦ rw e refl | inr n ↦ rw n refl ]
count_of-count_up key i ((k, n) ∷ counts) = elim (Bool-cases (k === key)) [
  | inl e ↦
      let same : k ≡ key = ===→≡ k key e in
      elim (Bool-cases (key === i)) [ inl h ↦ rw (e, same, h) refl | inr d ↦ rw (e, same, d) refl ]
  | inr d ↦ elim (Bool-cases (k === i)) [
    | inr o ↦ rw (d, o) (count_of-count_up key i counts)
    | inl h ↦ let apart : (key === i) ≡ false = differ (===→≡ k i h) d in rw (d, h, apart) refl
  ]
]
  where
    differ : k ≡ i → (k === key) ≡ false → (key === i) ≡ false
    differ h d = elim (Bool-cases (key === i)) [
      | inr o ↦ o
      | inl s ↦ absurd (true-ne-false (sym (≡→=== k key (h ∙ sym (===→≡ key i s))) ∙ d))
    ]

raised :
    (low high : Counts) (key : String)
    → ((i : String) → count_of low i ≤ count_of high i)
    → (i : String) → count_of low i ≤ count_of (count_up key high) i
raised low high key h i = elim (Bool-cases (key === i)) [
  | inl e ↦
      let c : count_of (count_up key high) i ≡ count_of high i + 1 =
        count_of-count_up key i high ∙ rw e refl in
      omega (arith, h i)
  | inr n ↦
      let c : count_of (count_up key high) i ≡ count_of high i =
        count_of-count_up key i high ∙ rw n refl in
      omega (arith, h i)
]

both_raised :
    (low high : Counts) (key : String)
    → ((i : String) → count_of low i ≤ count_of high i)
    → (i : String) → count_of (count_up key low) i ≤ count_of (count_up key high) i
both_raised low high key h i = elim (Bool-cases (key === i)) [
  | inl e ↦
      let c : count_of (count_up key high) i ≡ count_of high i + 1 =
        count_of-count_up key i high ∙ rw e refl in
      let d : count_of (count_up key low) i ≡ count_of low i + 1 =
        count_of-count_up key i low ∙ rw e refl in
      omega (arith, h i)
  | inr n ↦
      let c : count_of (count_up key high) i ≡ count_of high i =
        count_of-count_up key i high ∙ rw n refl in
      let d : count_of (count_up key low) i ≡ count_of low i =
        count_of-count_up key i low ∙ rw n refl in
      omega (arith, h i)
]

-- The counts of a state agree: no rule was applied or failed more often than it was selected.
pub record IsBounded (state : CoverageState) : Type 0 where
  pub applied_le : (id : String) → count_of state.applied id ≤ count_of state.selected id
  pub failed_le : (id : String) → count_of state.failed id ≤ count_of state.selected id

count_rule-IsBounded :
    (event : Value) (failing : List String) (state : CoverageState) (rule : ProfileRule)
    → IsBounded state
    → IsBounded (count_rule event failing state rule)
count_rule-IsBounded event failing state rule b = record {
  applied_le = step (applies event rule) state.applied b.applied_le;
  failed_le = step (includes failing rule.id) state.failed b.failed_le;
}
  where
    step :
        (c : Bool) (low : Counts)
        → ((i : String) → count_of low i ≤ count_of state.selected i)
        → (i : String)
        → count_of (if c then count_up rule.id low else low) i
          ≤ count_of (count_up rule.id state.selected) i
    step true low h i = both_raised low state.selected rule.id h i
    step false low h i = raised low state.selected rule.id h i

count_rules-IsBounded :
    (event : Value) (failing : List String) (rules : List ProfileRule) (state : CoverageState)
    → IsBounded state
    → IsBounded (count_rules event failing state rules)
count_rules-IsBounded event failing [] state b = b
count_rules-IsBounded event failing (rule ∷ rules) state b =
    count_rules-IsBounded event failing rules (count_rule event failing state rule)
      (count_rule-IsBounded event failing state rule b)

module _ (profile : ProfileDefinition) where
  count_event-IsBounded :
      (state : CoverageState) (event : Value) (result : ProfileCheckResult)
      → IsBounded state
      → IsBounded (count_event profile state event result)
  unfolding count_event
  count_event-IsBounded state event result b = elim (Bool-cases (was_judged result.status)) [
    | inr n ↦ subst IsBounded (rw n refl) b
    | inl j ↦ elim (Option-cases (event_name event)) [
      | inl n ↦ subst IsBounded (rw (j, n) refl) b
      | inr (name, n) ↦
          elim (Bool-cases (supports_core_version profile (property event "specVersion"))) [
            | inr u ↦ subst IsBounded (rw (j, n, u) refl) b
            | inl s ↦ subst IsBounded (rw (j, n, s) refl) (
                count_rules-IsBounded event (map (λ f. f.rule_id) result.errors)
                  (select_rules profile name) (count_name name (select_rules profile name) state)
                  (record { applied_le = b.applied_le; failed_le = b.failed_le }))
          ]
    ]
  ]

  count_events-IsBounded :
      (events : List Value) (results : List ProfileCheckResult) (state : CoverageState)
      → IsBounded state
      → IsBounded (count_events profile state events results)
  count_events-IsBounded [] results state b = b
  count_events-IsBounded (event ∷ events) [] state b = b
  count_events-IsBounded (event ∷ events) (result ∷ results) state b =
      count_events-IsBounded events results (count_event profile state event result)
        (count_event-IsBounded state event result b)

-- A row of the report, whose counts do not exceed how often the rule was selected.
abbrev pub RowBounded : RuleCoverage → Type 0
RowBounded row = (row.applied ≤ row.selected) × (row.failed ≤ row.selected)

-- In the coverage of any events and results, no rule is reported as applied, or as failed, more often
-- than it was selected.
pub summarise_coverage-bounded :
    (profile : ProfileDefinition) (locale_compare : String → String → Sign) (events : List Value)
    (results : List ProfileCheckResult)
    → All RowBounded (summarise_coverage profile locale_compare events results).per_rule
unfolding summarise_coverage
summarise_coverage-bounded profile locale_compare events results = rows profile.rules (
    count_events-IsBounded profile events results (start_coverage profile)
      (record { applied_le = λ i. omega arith; failed_le = λ i. omega arith }))
  where
    rows :
        (rules : List ProfileRule)
        → IsBounded (count_events profile (start_coverage profile) events results)
        → All RowBounded (
            map
              (rule_coverage profile (count_events profile (start_coverage profile) events results))
              rules)
    rows [] b = tt
    rows (rule ∷ rules) b = ((b.applied_le rule.id, b.failed_le rule.id), rows rules b)
