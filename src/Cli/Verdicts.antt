-- ===== src/Cli/Verdicts.antt =====
-- What a verdict of 0 says of the events that the counters were kept over.
use open_audit_model.Common.{
  ℕ, ◌+◌, ◌≡◌, refl, inl, inr, List, [], ◌∷◌, arith, ltb, if◌then◌else◌, ltb-false→le, Bool-cases,
  All, String, ◌≢◌, true, length, Sign, ◌<◌, ◌⊎◌, false, ◌&&◌, ◌||◌, map, ◌==◌, length-map, sym,
  subst,
}
use open_audit_model.Integrity.Findings.{Validator, ValidationIssue, EventResult}
use open_audit_model.Sources.Stream.{EventDocument}
use open_audit_model.Privacy.Rules.{LintStatus, PrivacyFinding}
use open_audit_model.Privacy.Tally.{
  count_status, count_finding, count_findings, add_to_lint_tally, finish_lint_tally, LintTally,
}
use open_audit_model.Privacy.LintEvent.Report.{EventLintResult}
use open_audit_model.Profiles.Totals.{summarise_profile_results-split, split_events}
use open_audit_model.Profiles.Types.{
  start_profile_tally, is_violating, is_core_invalid, add_to_profile_tally, add_results,
  summarise_profile_results, ProfileStatus, conforming, violations, not_applicable, core_invalid,
  ProfileCheckResult, ProfileTally,
}
use open_audit_model.Versions.{was_not_evaluated}
use open_audit_model.Cli.{
  count_issues, count_validated, validate_verdict, ValidateCounts, count_verified,
  integrity_verdict, lint_verdict, IntegrityCounts, exit_ok, exit_invalid, exit_no_verdict,
  profile_verdict,
}
use open_audit_model.Cli.Drain.{keep_all}

-- Validation

valid_issues :
    (issues : List ValidationIssue) (c : ValidateCounts)
    → (count_issues issues c).invalid ≡ 0
    → (count_issues issues c).not_evaluated ≡ 0
    → (c.invalid ≡ 0) × (c.not_evaluated ≡ 0) × (issues ≡ [])
valid_issues [] c i n = (i, n, refl)
valid_issues (x ∷ xs) c i n = elim (Bool-cases (was_not_evaluated (x ∷ xs))) [
  | inl skipped ↦ absurd (positive_count c.not_evaluated (rw skipped at n))
  | inr invalid ↦ absurd (positive_count c.invalid (rw invalid at i))
]
  where
    positive_count : (k : ℕ) → k + 1 ≡ 0 → ⊥
    positive_count k e = omega (arith, e)

valid_documents :
    (v : Validator) (docs : List EventDocument) (c : ValidateCounts)
    → (keep_all (count_validated v) c docs).invalid ≡ 0
    → (keep_all (count_validated v) c docs).not_evaluated ≡ 0
    → (c.invalid ≡ 0) × (c.not_evaluated ≡ 0) × All (λ d. v d.event ≡ []) docs
valid_documents v [] c i n = (i, n, tt)
valid_documents v (d ∷ ds) c i n =
    let (i1, n1, a) = valid_documents v ds (count_validated v c d) i n in
    let (i2, n2, e) = valid_issues (v d.event) c i1 n1 in (i2, n2, (e, a))

zero_verdict : (n : ℕ) (b : ℕ) → (if ltb 0 n then exit_invalid else b) ≡ 0 → (n ≡ 0) × (b ≡ 0)
zero_verdict n b e = elim (Bool-cases (ltb 0 n)) [
  | inl some_of ↦ cc (rw some_of at e)
  | inr none_of ↦ (omega (arith, ltb-false→le 0 n none_of), rw none_of at e)
]

none_skipped : (n : ℕ) → (if ltb 0 n then exit_no_verdict else exit_ok) ≡ 0 → n ≡ 0
none_skipped n r = elim (Bool-cases (ltb 0 n)) [
  | inl some_of ↦ cc (rw some_of at r)
  | inr none_of ↦ omega (arith, ltb-false→le 0 n none_of)
]

pub validate_verdict-All :
    (v : Validator) (docs : List EventDocument) (c : ValidateCounts)
    → validate_verdict (keep_all (count_validated v) c docs) ≡ 0
    → All (λ d. v d.event ≡ []) docs
validate_verdict-All v docs c e =
    let last = keep_all (count_validated v) c docs in
    let (i, rest) =
      zero_verdict last.invalid (if ltb 0 last.not_evaluated then exit_no_verdict else exit_ok) e in
    (valid_documents v docs c i (none_skipped last.not_evaluated rest)).2

-- Verification of integrity
verified_documents :
    (result : EventDocument → EventResult) (docs : List EventDocument) (c : IntegrityCounts)
    → (keep_all (λ c d. count_verified (result d) c) c docs).failed ≡ 0
    → (c.failed ≡ 0) × All (λ d. (result d).verified ≡ true) docs
verified_documents result [] c f = (f, tt)
verified_documents result (d ∷ ds) c f =
    let (g, a) = verified_documents result ds (count_verified (result d) c) f in
    elim (Bool-cases (result d).verified) [
      | inl good ↦ (rw good at g, (good, a))
      | inr bad ↦ let h : c.failed + 1 ≡ 0 = rw bad at g in absurd (omega (arith, h))
    ]

pub integrity_verdict-All :
    (result : EventDocument → EventResult) (docs : List EventDocument) (c : IntegrityCounts)
    → integrity_verdict (keep_all (λ c d. count_verified (result d) c) c docs) ≡ 0
    → All (λ d. (result d).verified ≡ true) docs
integrity_verdict-All result docs c e =
    (verified_documents result docs c
      (zero_verdict (keep_all (λ c d. count_verified (result d) c) c docs).failed 0 e).0).1

-- Linting
count_findings-kept :
    (fs : List PrivacyFinding) (t : LintTally)
    → ((count_findings fs t).found_count ≡ t.found_count + length fs)
      × ((count_findings fs t).invalid_events ≡ t.invalid_events)
unfolding count_findings
count_findings-kept [] t = (omega arith, refl)
count_findings-kept (f ∷ fs) t =
    let (a, b) = count_findings-kept fs (count_finding f t) in (omega (arith, a), b)

count_status-kept :
    (s : LintStatus) (t : LintTally)
    → (count_status s t).invalid_events ≡ 0
    → ((count_status s t).found_count ≡ t.found_count)
      × (t.invalid_events ≡ 0)
      × (s ≢ LintStatus.schema_invalid)
count_status-kept LintStatus.clean t i = (refl, i, λ e. cc)
count_status-kept LintStatus.findings t i = (refl, i, λ e. cc)
count_status-kept LintStatus.schema_invalid t i = absurd (omega (arith, i))

abbrev pub WasClean : EventLintResult → Type 0
WasClean r = (length r.findings ≡ 0) × (r.status ≢ LintStatus.schema_invalid)

clean_documents :
    (result : EventDocument → EventLintResult) (docs : List EventDocument) (t : LintTally)
    → (keep_all (λ t d. add_to_lint_tally t (result d)) t docs).found_count ≡ 0
    → (keep_all (λ t d. add_to_lint_tally t (result d)) t docs).invalid_events ≡ 0
    → (t.found_count ≡ 0) × (t.invalid_events ≡ 0) × All (λ d. WasClean (result d)) docs
unfolding add_to_lint_tally
clean_documents result [] t f i = (f, i, tt)
clean_documents result (d ∷ ds) t f i =
    let r = result d in
    let (f1, i1, a) = clean_documents result ds (add_to_lint_tally t r) f i in
    let (f2, i2) = count_findings-kept r.findings (count_status r.status t) in
    let (f3, i3, s) = count_status-kept r.status t (omega (arith, i1, i2)) in
    (omega (arith, f1, f2, f3), i3, ((omega (arith, f1, f2), s), a))

pub lint_verdict-All :
    (locale_compare : String → String → Sign) (result : EventDocument → EventLintResult)
    (docs : List EventDocument) (t : LintTally)
    → lint_verdict
        (finish_lint_tally locale_compare (keep_all (λ t d. add_to_lint_tally t (result d)) t docs))
      ≡ 0
    → All (λ d. WasClean (result d)) docs
unfolding finish_lint_tally
lint_verdict-All locale_compare result docs t e =
    let last = keep_all (λ t d. add_to_lint_tally t (result d)) t docs in
    let (f, rest) =
      zero_verdict last.found_count (if ltb 0 last.invalid_events then exit_no_verdict else exit_ok)
        e in
    (clean_documents result docs t f (none_skipped last.invalid_events rest)).2

-- Checking against a profile
module _ (result : EventDocument → ProfileCheckResult)
    (violating : (d : EventDocument)
      → length (result d).errors ≡ 0
      → is_violating (result d).status ≡ 0) where
  abbrev pub Passes : EventDocument → Type 0
  Passes d = ((result d).status ≡ conforming) ⊎ ((result d).status ≡ not_applicable)

  abbrev taken : ProfileTally → List EventDocument → ProfileTally
  taken t docs = keep_all (λ t d. add_to_profile_tally t (result d)) t docs

  taken-add_results :
      (docs : List EventDocument) (t : ProfileTally)
      → taken t docs ≡ add_results t (map result docs)
  taken-add_results [] t = refl
  taken-add_results (d ∷ ds) t = taken-add_results ds (add_to_profile_tally t (result d))

  passed_status :
      (s : ProfileStatus)
      → is_violating s ≡ 0
      → is_core_invalid s ≡ 0
      → (s ≡ conforming) ⊎ (s ≡ not_applicable)
  passed_status conforming v c = inl refl
  passed_status violations v c = absurd (omega (arith, v))
  passed_status not_applicable v c = inr refl
  passed_status core_invalid v c = absurd (omega (arith, c))

  passing_documents :
      (docs : List EventDocument) (t : ProfileTally)
      → (taken t docs).errors ≡ 0
      → (taken t docs).core_invalid_events ≡ 0
      → (t.errors ≡ 0)
        × (t.core_invalid_events ≡ 0)
        × ((taken t docs).violating_events ≡ t.violating_events)
        × All Passes docs
  passing_documents [] t e c = (e, c, refl, tt)
  passing_documents (d ∷ ds) t e c =
      let (e1, c1, v1, a) = passing_documents ds (add_to_profile_tally t (result d)) e c in
      let v2 : is_violating (result d).status ≡ 0 = violating d (omega (arith, e1)) in
      let c2 : is_core_invalid (result d).status ≡ 0 = omega (arith, c1) in
      (
        omega (arith, e1),
        omega (arith, c1),
        omega (arith, v1, v2),
        (passed_status (result d).status v2 c2, a),
      )

  -- Every event passes, and at least one is governed.
  pub profile_verdict-All :
      (docs : List EventDocument)
      → 0 < length docs
      → profile_verdict (taken start_profile_tally docs) ≡ 0
      → All Passes docs × (0 < (summarise_profile_results (map result docs)).conforming_events)
  profile_verdict-All docs n e =
      let last = taken start_profile_tally docs in
      elim (Bool-cases (ltb 0 last.errors || ltb 0 last.core_invalid_events)) [
        | inl invalid ↦ cc (rw invalid at e)
        | inr fine ↦
            elim (Bool-cases (last.conforming_events == 0 && ltb 0 last.not_applicable_events)) [
              | inl ungoverned ↦ cc (rw (fine, ungoverned) at e)
              | inr governed ↦
                  let (e0, c0) = zeros last.errors last.core_invalid_events fine in
                  let (e1, c1, v1, a) = passing_documents docs start_profile_tally e0 c0 in
                  let same = taken-add_results docs start_profile_tally in
                  let (split, total) = summarise_profile_results-split (map result docs) in
                  (
                    a,
                    subst (λ t. 0 < t.conforming_events) same
                        (some_conforming last v1 c0
                          (subst (λ t. split_events t ≡ t.events) (sym same) split)
                          (subst (λ t. t.events ≡ length (map result docs)) (sym same) total)
                          governed),
                  )
            ]
      ]
    where
      some_conforming :
          (t : ProfileTally)
          → t.violating_events ≡ 0
          → t.core_invalid_events ≡ 0
          → split_events t ≡ t.events
          → t.events ≡ length (map result docs)
          → (t.conforming_events == 0 && ltb 0 t.not_applicable_events) ≡ false
          → 0 < t.conforming_events
      some_conforming t v c split total h =
          let m : length (map result docs) ≡ length docs = length-map result docs in ground arith

      zeros : (m k : ℕ) → (ltb 0 m || ltb 0 k) ≡ false → (m ≡ 0) × (k ≡ 0)
      zeros m k h = (ground arith, ground arith)
