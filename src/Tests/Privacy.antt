-- ===== src/Tests/Privacy.antt =====
-- The linter at an event whose metadata has a token as a name and a password.
use open_audit_model.Common.{
  ◌+◌, ◌≤◌, String, ◌≡◌, refl, ◌↔◌, true, false, none, [], ◌∷◌, map, All, trim_start, trim_end,
  trim, Sign, sort, Adjacent, utf8, ◌+++◌, some, List,
}
use Prim.Native.Nat.{min}
use open_audit_model.Json.{field, end, Value, obj, str, undef}
use open_audit_model.Json.Pointer.{
  replace_char, pointer_segment, split, split_from, decode_reference_token, replace_pair,
}
use open_audit_model.Json.Stringify.{escape, print_number, print_value, print_items, print_members}
use open_audit_model.Privacy.Platform.{Platform}
use open_audit_model.Privacy.Rules.{rule_by_id, severity_rank, clean}
use open_audit_model.Privacy.SafeFormats.{is_redaction_placeholder, is_known_safe_format}
use open_audit_model.Privacy.UrlAnalysis.{
  analyze_url, is_data_system_scheme, read_pairs, analyze_key_value_connection_string,
  analyze_connection_string,
}
use open_audit_model.Privacy.TokenPatterns.{
  matches_authorization_header, contains_private_key_material, padded, is_jwt_structured,
  match_known_token_format, is_high_entropy_token_candidate,
}
use open_audit_model.Privacy.RedactKey.{is_credential_shaped, redact_key, redact_pointer}
use open_audit_model.Privacy.FieldNames.{
  candidate_names, is_prohibited_credential_field_name, is_raw_payload_field_name,
  is_suspicious_field_name,
}
use open_audit_model.Privacy.SizeAnalysis.{
  measure, measure_items, measure_fields, profile_value, exceeded_signals,
}
use open_audit_model.Privacy.Traverse.{read_path, visits, visit_items, visit_fields, traverse}
use open_audit_model.Privacy.LintEvent.{
  deep_roots, scalar_locations, size_roots, evidence_references, strong_findings, value_findings,
  name_findings, evidence_findings, visited_findings, collected,
}
use open_audit_model.Privacy.LintEvent.Report.{unseen, report_of, lint_event, EventLintResult}
use open_audit_model.Privacy.LintEvent.Once.{count_key, lint_event-once}
use open_audit_model.Privacy.Redaction.{AtSafePath}
use open_audit_model.Privacy.Redaction.Report.{lint_event-AtSafePath, AtRedactedLine, validator_of}
use open_audit_model.Privacy.SchemaIssues.{
  ErrorObject, issue_path, describe, issues_from, to_issues,
}
use open_audit_model.Versions.{SpecVersion, version_1_0}
use open_audit_model.Privacy.Tally.{summarise}
use open_audit_model.Privacy.Sums.{severity_total, category_total, findings_in, summarise-balanced}
use open_audit_model.Tests.{accepts_all}

abbrev platform : Platform
platform = record {
  parse_url = λ text. none;
  to_lower_case = λ text. text;
  parse_base64_json = λ text. none;
  reaches_threshold = λ text. false;
  locale_compare = λ s t. Sign.zero;
}

abbrev leaking_event : Value
leaking_event = obj (
    field "metadata" (obj (field "AKIA0123456789ABCDEF" (obj (field "password" (str "x") end)) end))
      end)

abbrev leak_report : EventLintResult
leak_report = lint_event platform leaking_event "f" accepts_all true

reported_paths :
    map (λ f. f.rule_id +++ f.path) leak_report.findings
    ≡ "OAM-PRIV-001/metadata/<redacted>/password" ∷ "OAM-PRIV-011/metadata/<redacted>" ∷ []
unfolding lint_event report_of unseen sort collected deep_roots scalar_locations size_roots
    evidence_references strong_findings value_findings name_findings evidence_findings
    visited_findings read_path visits visit_items visit_fields traverse redact_key
    is_credential_shaped match_known_token_format is_jwt_structured padded
    contains_private_key_material matches_authorization_header is_high_entropy_token_candidate
    is_known_safe_format is_redaction_placeholder analyze_url analyze_connection_string
    analyze_key_value_connection_string read_pairs is_data_system_scheme rule_by_id candidate_names
    is_prohibited_credential_field_name is_raw_payload_field_name is_suspicious_field_name
    pointer_segment replace_char split split_from trim trim_start trim_end exceeded_signals
    profile_value measure measure_items measure_fields print_value print_items print_members
    print_number escape utf8
reported_paths = refl

-- Ajv's error for a property that no schema knows and that is shaped like a key.
abbrev unknown_property : ErrorObject
unknown_property = record {
  keyword = "additionalProperties";
  instance_path = "";
  message = none;
  property_name = none;
  missing_property = none;
  dependent_property = none;
  additional_property = some "AKIA0123456789ABCDEF";
  invalid_property_name = none;
  allowed_values = none;
  allowed_value = undef;
  pattern_text = none;
  format_name = none;
}

abbrev refuses_all : SpecVersion → Value → List ErrorObject
refuses_all version event = unknown_property ∷ unknown_property ∷ []

issue_text :
    map (λ i. i.path +++ (" " +++ i.message)) (to_issues platform (refuses_all version_1_0 undef))
    ≡ "/<redacted> unknown property \"<redacted>\" is not permitted here" ∷ []
unfolding to_issues issues_from issue_path describe redact_pointer redact_key is_credential_shaped
    match_known_token_format is_jwt_structured padded contains_private_key_material
    matches_authorization_header is_high_entropy_token_candidate is_known_safe_format
    is_redaction_placeholder analyze_url analyze_connection_string
    analyze_key_value_connection_string read_pairs is_data_system_scheme pointer_segment
    replace_char split split_from decode_reference_token replace_pair trim trim_start trim_end
issue_text = refl

abbrev tolerant : EventLintResult
tolerant = lint_event platform leaking_event "f" (validator_of platform refuses_all) false

abbrev strict : EventLintResult
strict = lint_event platform leaking_event "f" (validator_of platform refuses_all) true

lint_event-AtSafePath_example :
    (All (AtSafePath platform) tolerant.findings
      × All (AtRedactedLine platform) tolerant.schema_issues)
    × (All (AtSafePath platform) strict.findings
        × All (AtRedactedLine platform) strict.schema_issues)
lint_event-AtSafePath_example = (
  lint_event-AtSafePath platform leaking_event "f" refuses_all false,
  lint_event-AtSafePath platform leaking_event "f" refuses_all true,
)

lint_event-once_example :
    Adjacent (λ f g. severity_rank f.severity ≤ severity_rank g.severity) leak_report.findings
    × ((k : String)
        → count_key k leak_report.findings ≡ min 1 (count_key k (collected platform leaking_event)))
    × ((leak_report.status ≡ clean) ↔ (collected platform leaking_event ≡ []))
lint_event-once_example = lint_event-once platform leaking_event "f" accepts_all true refl

summarise-balanced_example :
    ((summarise platform.locale_compare (leak_report ∷ [])).clean_events
        + (summarise platform.locale_compare (leak_report ∷ [])).with_findings
        + (summarise platform.locale_compare (leak_report ∷ [])).invalid_events
      ≡ 1)
    × ((summarise platform.locale_compare (leak_report ∷ [])).found_count
        ≡ findings_in (leak_report ∷ []))
    × (severity_total (summarise platform.locale_compare (leak_report ∷ [])).by_severity
        ≡ findings_in (leak_report ∷ []))
    × (category_total (summarise platform.locale_compare (leak_report ∷ [])).by_category
        ≡ findings_in (leak_report ∷ []))
summarise-balanced_example = summarise-balanced platform.locale_compare (leak_report ∷ [])
