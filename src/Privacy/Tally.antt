-- ===== src/Privacy/Tally.antt =====
-- conformance/src/privacy/types.ts: the tally over a set of results.
use open_audit_model.Common.{
  ℕ, ◌+◌, String, List, [], ◌∷◌, value_or, Counts, count_up, Sign, sign_of_difference, sort,
  then_by,
}
use open_audit_model.Privacy.Rules.{Severity, LintStatus, clean, schema_invalid, PrivacyFinding}
use open_audit_model.Privacy.LintEvent.Report.{EventLintResult}

-- `Record<Severity, number>`
pub record SeverityCounts : Type 0 where
  pub critical_count : ℕ
  pub high_count : ℕ
  pub medium_count : ℕ
  pub low_count : ℕ
  pub info_count : ℕ

-- `emptySeverityCounts`
abbrev pub empty_severity_counts : SeverityCounts
empty_severity_counts = record {
  critical_count = 0;
  high_count = 0;
  medium_count = 0;
  low_count = 0;
  info_count = 0;
}

-- `LintTally`
pub record LintTally : Type 0 where
  pub events : ℕ
  pub clean_events : ℕ
  pub with_findings : ℕ
  pub invalid_events : ℕ
  pub found_count : ℕ
  pub by_severity : SeverityCounts
  pub categories : Counts

-- `CategoryCount`
abbrev pub CategoryCount : Type 0
CategoryCount = String × ℕ

-- `LintSummary`
pub record LintSummary : Type 0 where
  pub events : ℕ
  pub clean_events : ℕ
  pub with_findings : ℕ
  pub invalid_events : ℕ
  pub found_count : ℕ
  pub by_severity : SeverityCounts
  pub by_category : List CategoryCount

-- `startLintTally`
abbrev pub start_lint_tally : LintTally
start_lint_tally = record {
  events = 0;
  clean_events = 0;
  with_findings = 0;
  invalid_events = 0;
  found_count = 0;
  by_severity = empty_severity_counts;
  categories = [];
}

-- `tally.bySeverity[severity] += 1`
abbrev pub count_severity : Severity → SeverityCounts → SeverityCounts
count_severity Severity.critical c = record c { critical_count = c.critical_count + 1 }
count_severity Severity.high c = record c { high_count = c.high_count + 1 }
count_severity Severity.medium c = record c { medium_count = c.medium_count + 1 }
count_severity Severity.low c = record c { low_count = c.low_count + 1 }
count_severity Severity.info c = record c { info_count = c.info_count + 1 }

abbrev pub count_status : LintStatus → LintTally → LintTally
count_status clean t = record t { events = t.events + 1; clean_events = t.clean_events + 1 }
count_status LintStatus.findings t = record t {
  events = t.events + 1;
  with_findings = t.with_findings + 1;
}
count_status schema_invalid t = record t {
  events = t.events + 1;
  invalid_events = t.invalid_events + 1;
}

-- One round of the loop over the findings of a result; `UNCATEGORISED` stands for no category.
abbrev pub count_finding : PrivacyFinding → LintTally → LintTally
count_finding f t = record t {
  found_count = t.found_count + 1;
  by_severity = count_severity f.severity t.by_severity;
  categories = count_up (value_or f.category "uncategorised") t.categories;
}

unfoldable pub count_findings : List PrivacyFinding → LintTally → LintTally
count_findings [] t = t
count_findings (f ∷ fs) t = count_findings fs (count_finding f t)

-- `addToLintTally`
unfoldable pub add_to_lint_tally : LintTally → EventLintResult → LintTally
add_to_lint_tally t result = count_findings result.findings (count_status result.status t)

unfoldable pub add_lint_results : LintTally → List EventLintResult → LintTally
add_lint_results t [] = t
add_lint_results t (r ∷ rs) = add_lint_results (add_to_lint_tally t r) rs

module _ (locale_compare : String → String → Sign) where
  -- The comparator of the categories.
  abbrev pub compare_categories : CategoryCount → CategoryCount → Sign
  compare_categories left right =
      then_by (sign_of_difference right.1 left.1) (locale_compare left.0 right.0)

  -- `finishLintTally`
  unfoldable pub finish_lint_tally : LintTally → LintSummary
  finish_lint_tally t = record {
    events = t.events;
    clean_events = t.clean_events;
    with_findings = t.with_findings;
    invalid_events = t.invalid_events;
    found_count = t.found_count;
    by_severity = t.by_severity;
    by_category = sort compare_categories t.categories;
  }

  -- `summarise`
  unfoldable pub summarise : List EventLintResult → LintSummary
  summarise results = finish_lint_tally (add_lint_results start_lint_tally results)
