-- ===== src/Privacy/LintEvent/Report.antt =====
-- conformance/src/privacy/lint-event.ts: `lintEvent`, from what is collected to the result.
use open_audit_model.Common.{
  ℕ, ◌-◌, String, Bool, ◌&&◌, Option, List, [], ◌∷◌, ◌++◌, map, ltb, if◌then◌else◌, then_by, length,
  take, includes, Sign, sign_of_difference, sort, ◌+++◌,
}
use open_audit_model.Json.{as_string, Value}
use open_audit_model.Integrity.Findings.{Validator, ValidationIssue}
use open_audit_model.Privacy.Platform.{Platform}
use open_audit_model.Privacy.Rules.{severity_rank, LintStatus, clean, PrivacyFinding}
use open_audit_model.Privacy.Traverse.{read_path}
use open_audit_model.Privacy.LintEvent.{collected}

-- A rendered schema issue, or the line that counts the issues that are not shown.
pub data SchemaIssueLine : Type 0 where
  shown : ValidationIssue → SchemaIssueLine
  further : ℕ → SchemaIssueLine

-- `EventLintResult`
pub record EventLintResult : Type 0 where
  pub label : String
  pub event_id : Option String
  pub status : LintStatus
  pub findings : List PrivacyFinding
  pub schema_issues : List SchemaIssueLine

-- The key of a finding in `seen`.
abbrev pub finding_key : PrivacyFinding → String
finding_key f = f.rule_id +++ ("|" +++ f.path)

-- The filter by `seen`: the first finding of each key.
unfoldable pub unseen : List String → List PrivacyFinding → List PrivacyFinding
unseen seen [] = []
unseen seen (f ∷ fs) =
    let skipped = unseen seen fs in
    let kept = f ∷ unseen (finding_key f ∷ seen) fs in
    if includes seen (finding_key f) then skipped else kept

-- `{ ...entry, ...identity }`
abbrev pub identified : Option String → PrivacyFinding → PrivacyFinding
identified id f = record {
  rule_id = f.rule_id;
  severity = f.severity;
  confidence = f.confidence;
  path = f.path;
  category = f.category;
  event_id = id;
}

-- At most five issues, and the number of the others.
abbrev pub issue_lines : List ValidationIssue → List SchemaIssueLine
issue_lines issues =
    let lines = map shown (take 5 issues) in
    if ltb (length lines) (length issues)
    then lines ++ further (length issues - length lines) ∷ []
    else lines

-- `findings.length === 0 ? "clean" : "findings"`
abbrev pub status_of : List PrivacyFinding → LintStatus
status_of [] = clean
status_of (f ∷ fs) = LintStatus.findings

module _ (platform : Platform) where
  open platform use {locale_compare}

  -- The comparator of the findings.
  abbrev pub compare_findings : PrivacyFinding → PrivacyFinding → Sign
  compare_findings left right =
      then_by (sign_of_difference (severity_rank left.severity) (severity_rank right.severity))
        (then_by (locale_compare left.path right.path) (locale_compare left.rule_id right.rule_id))

  unfoldable pub report_of : Option String → List PrivacyFinding → List PrivacyFinding
  report_of id fs = sort compare_findings (map (identified id) (unseen [] fs))

  -- `lintEvent`
  unfoldable pub lint_event : Value → String → Validator → Bool → EventLintResult
  lint_event event label validator validate_schema =
      let id = as_string (read_path event ("id" ∷ [])) in
      let issues = validator event in
      let fs = report_of id (collected platform event) in
      if validate_schema && ltb 0 (length issues)
      then record {
        label = label;
        event_id = id;
        status = LintStatus.schema_invalid;
        findings = [];
        schema_issues = issue_lines issues;
      }
      else record {
        label = label;
        event_id = id;
        status = status_of fs;
        findings = fs;
        schema_issues = [];
      }
