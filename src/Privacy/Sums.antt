-- ===== src/Privacy/Sums.antt =====
-- The counts of a summary add up.
use open_audit_model.Common.{
  ℕ, ◌+◌, String, ◌≡◌, refl, ap, ◌∙◌, subst, inl, inr, List, [], ◌∷◌, arith, Bool-cases, value_or,
  length, ◌===◌, Counts, count_up, Sign, is_positive, insert, sort,
}
use open_audit_model.Privacy.Rules.{Severity, LintStatus, clean, PrivacyFinding}
use open_audit_model.Privacy.LintEvent.Report.{EventLintResult}
use open_audit_model.Privacy.Tally.{
  CategoryCount, start_lint_tally, count_severity, count_finding, count_findings, add_to_lint_tally,
  add_lint_results, compare_categories, finish_lint_tally, summarise, SeverityCounts, LintTally,
  count_status,
}

module _ {ℓ} {A : Type ℓ} (weight : A → ℕ) where
  abbrev pub sum_of : List A → ℕ
  sum_of [] = 0
  sum_of (x ∷ xs) = weight x + sum_of xs

  module _ (compare : A → A → Sign) where
    sum_of-insert : (x : A) (xs : List A) → sum_of (insert compare x xs) ≡ weight x + sum_of xs
    sum_of-insert x [] = refl
    sum_of-insert x (y ∷ ys) = elim (Bool-cases (is_positive (compare x y))) [
      | inl g ↦ rw g (omega (arith, sum_of-insert x ys))
      | inr n ↦ rw n refl
    ]

    sum_of-sort : (xs : List A) → sum_of (sort compare xs) ≡ sum_of xs
    unfolding sort
    sum_of-sort [] = refl
    sum_of-sort (x ∷ xs) =
        sum_of-insert x (sort compare xs) ∙ ap (λ n. weight x + n) (sum_of-sort xs)

abbrev pub severity_total : SeverityCounts → ℕ
severity_total c = c.critical_count + c.high_count + c.medium_count + c.low_count + c.info_count

abbrev pub category_total : List CategoryCount → ℕ
category_total cs = sum_of (λ c. c.1) cs

-- The number of findings in a set of results.
abbrev pub findings_in : List EventLintResult → ℕ
findings_in results = sum_of (λ r. length r.findings) results

abbrev pub split_results : LintTally → ℕ
split_results t = t.clean_events + t.with_findings + t.invalid_events

sum_of-count_up :
    (key : String) (counts : Counts)
    → category_total (count_up key counts) ≡ category_total counts + 1
sum_of-count_up key [] = refl
sum_of-count_up key ((k, n) ∷ counts) = elim (Bool-cases (k === key)) [
  | inl e ↦ rw e (omega arith)
  | inr d ↦ rw d (omega (arith, sum_of-count_up key counts))
]

-- What a tally keeps.
record Balanced (t : LintTally) (results found : ℕ) : Type 0 where
  split : split_results t ≡ t.events
  counted : t.events ≡ results
  total : t.found_count ≡ found
  severities : severity_total t.by_severity ≡ found
  categories : category_total t.categories ≡ found

count_severity-total :
    (s : Severity) (c : SeverityCounts) → severity_total (count_severity s c) ≡ severity_total c + 1
count_severity-total Severity.critical c = omega arith
count_severity-total Severity.high c = omega arith
count_severity-total Severity.medium c = omega arith
count_severity-total Severity.low c = omega arith
count_severity-total Severity.info c = omega arith

count_findings-Balanced :
    (fs : List PrivacyFinding) (t : LintTally) (n m : ℕ)
    → Balanced t n m
    → Balanced (count_findings fs t) n (m + length fs)
unfolding count_findings
count_findings-Balanced [] t n m b = record {
  split = b.split;
  counted = b.counted;
  total = omega (arith, b.total);
  severities = omega (arith, b.severities);
  categories = omega (arith, b.categories);
}
count_findings-Balanced (f ∷ fs) t n m b =
    let e : (m + 1) + length fs ≡ m + length (f ∷ fs) = omega arith in
    subst (Balanced (count_findings fs (count_finding f t)) n) e (
      count_findings-Balanced fs (count_finding f t) n (m + 1) (record {
        split = b.split;
        counted = b.counted;
        total = omega (arith, b.total);
        severities = omega (arith, count_severity-total f.severity t.by_severity, b.severities);
        categories = omega (
          arith,
          sum_of-count_up (value_or f.category "uncategorised") t.categories,
          b.categories,
        );
      }))

count_status-Balanced :
    (s : LintStatus) (t : LintTally) (n m : ℕ)
    → Balanced t n m
    → Balanced (count_status s t) (n + 1) m
count_status-Balanced s t n m b = record {
  split = split_of s;
  counted = counted_of s;
  total = same s;
  severities = severities_of s;
  categories = categories_of s;
}
  where
    split_of : (s : LintStatus) → split_results (count_status s t) ≡ (count_status s t).events
    split_of clean = omega (arith, b.split)
    split_of LintStatus.findings = omega (arith, b.split)
    split_of LintStatus.schema_invalid = omega (arith, b.split)

    counted_of : (s : LintStatus) → (count_status s t).events ≡ n + 1
    counted_of clean = omega (arith, b.counted)
    counted_of LintStatus.findings = omega (arith, b.counted)
    counted_of LintStatus.schema_invalid = omega (arith, b.counted)

    same : (s : LintStatus) → (count_status s t).found_count ≡ m
    same clean = b.total
    same LintStatus.findings = b.total
    same LintStatus.schema_invalid = b.total

    severities_of : (s : LintStatus) → severity_total (count_status s t).by_severity ≡ m
    severities_of clean = b.severities
    severities_of LintStatus.findings = b.severities
    severities_of LintStatus.schema_invalid = b.severities

    categories_of : (s : LintStatus) → category_total (count_status s t).categories ≡ m
    categories_of clean = b.categories
    categories_of LintStatus.findings = b.categories
    categories_of LintStatus.schema_invalid = b.categories

add_lint_results-Balanced :
    (rs : List EventLintResult) (t : LintTally) (n m : ℕ)
    → Balanced t n m
    → Balanced (add_lint_results t rs) (n + length rs) (m + findings_in rs)
unfolding add_lint_results add_to_lint_tally
add_lint_results-Balanced [] t n m b = record {
  split = b.split;
  counted = omega (arith, b.counted);
  total = omega (arith, b.total);
  severities = omega (arith, b.severities);
  categories = omega (arith, b.categories);
}
add_lint_results-Balanced (r ∷ rs) t n m b =
    let next = count_findings r.findings (count_status r.status t) in
    let ih : Balanced (add_lint_results next rs) ((n + 1) + length rs)
        ((m + length r.findings) + findings_in rs) =
      add_lint_results-Balanced rs next (n + 1) (m + length r.findings) (
        count_findings-Balanced r.findings (count_status r.status t) (n + 1) m
          (count_status-Balanced r.status t n m b)) in
    record {
      split = ih.split;
      counted = omega (arith, ih.counted);
      total = omega (arith, ih.total);
      severities = omega (arith, ih.severities);
      categories = omega (arith, ih.categories);
    }

-- A summary counts every result once, as clean, with findings or schema invalid; it counts every
-- finding of the results; and its counts by severity and its counts by category both add up to the
-- number of the findings.
pub summarise-balanced :
    (locale_compare : String → String → Sign) (results : List EventLintResult)
    → ((summarise locale_compare results).clean_events
          + (summarise locale_compare results).with_findings
          + (summarise locale_compare results).invalid_events
        ≡ length results)
      × ((summarise locale_compare results).found_count ≡ findings_in results)
      × (severity_total (summarise locale_compare results).by_severity ≡ findings_in results)
      × (category_total (summarise locale_compare results).by_category ≡ findings_in results)
unfolding summarise finish_lint_tally
summarise-balanced locale_compare results =
    let t = add_lint_results start_lint_tally results in
    let b = add_lint_results-Balanced results start_lint_tally 0 0 (record {
      split = refl;
      counted = refl;
      total = refl;
      severities = refl;
      categories = refl;
    }) in
    (
      omega (arith, b.split, b.counted),
      omega (arith, b.total),
      omega (arith, b.severities),
      sum_of-sort (λ c. c.1) (compare_categories locale_compare) t.categories
          ∙ omega (arith, b.categories),
    )
