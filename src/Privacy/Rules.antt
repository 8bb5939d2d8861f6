-- ===== src/Privacy/Rules.antt =====
-- conformance/src/privacy/rules.ts and the types of conformance/src/privacy/types.ts. The names, the
-- messages and the recommendations of the rules are not modelled.
use open_audit_model.Common.{ℕ, String, Option, none, some, List, [], ◌∷◌, if◌then◌else◌, ◌===◌}

-- `Severity`
pub data Severity : Type 0 where
  info low medium high critical : Severity

-- `Confidence`
pub data Confidence : Type 0 where
  low medium high : Confidence

-- `RuleDefinition`
pub record RuleDefinition : Type 0 where
  pub id : String
  pub severity : Severity
  pub confidence : Confidence
  pub category : String

abbrev rule : String → Severity → Confidence → String → RuleDefinition
rule id severity confidence category = record {
  id = id;
  severity = severity;
  confidence = confidence;
  category = category;
}

-- `RULES`
abbrev pub prohibited_credential_field : RuleDefinition
prohibited_credential_field = rule "OAM-PRIV-001" critical Confidence.high "credential-field-name"

abbrev pub authorization_header_value : RuleDefinition
authorization_header_value = rule "OAM-PRIV-002" critical Confidence.high "credential-shaped-value"

abbrev pub private_key_material : RuleDefinition
private_key_material = rule "OAM-PRIV-003" critical Confidence.high "credential-shaped-value"

abbrev pub jwt_token : RuleDefinition
jwt_token = rule "OAM-PRIV-010" critical Confidence.high "known-token-format"

abbrev pub aws_access_key_id : RuleDefinition
aws_access_key_id = rule "OAM-PRIV-011" Severity.high Confidence.high "known-token-format"

abbrev pub github_token : RuleDefinition
github_token = rule "OAM-PRIV-012" critical Confidence.high "known-token-format"

abbrev pub gitlab_token : RuleDefinition
gitlab_token = rule "OAM-PRIV-013" critical Confidence.high "known-token-format"

abbrev pub slack_token : RuleDefinition
slack_token = rule "OAM-PRIV-014" critical Confidence.high "known-token-format"

abbrev pub payment_secret_key : RuleDefinition
payment_secret_key = rule "OAM-PRIV-015" critical Confidence.high "known-token-format"

abbrev pub cloud_api_key : RuleDefinition
cloud_api_key = rule "OAM-PRIV-016" critical Confidence.high "known-token-format"

abbrev pub url_userinfo : RuleDefinition
url_userinfo = rule "OAM-PRIV-030" critical Confidence.high "url"

abbrev pub evidence_reference_query : RuleDefinition
evidence_reference_query = rule "OAM-PRIV-031" Severity.medium Confidence.medium "url"

abbrev pub connection_string_with_credentials : RuleDefinition
connection_string_with_credentials =
    rule "OAM-PRIV-040" critical Confidence.high "connection-string"

abbrev pub connection_string_without_credentials : RuleDefinition
connection_string_without_credentials =
    rule "OAM-PRIV-041" Severity.low Confidence.medium "connection-string"

abbrev pub high_entropy_token_candidate : RuleDefinition
high_entropy_token_candidate = rule "OAM-PRIV-050" Severity.medium Confidence.low "heuristic"

abbrev pub oversized_unfiltered_value : RuleDefinition
oversized_unfiltered_value = rule "OAM-PRIV-060" Severity.medium Confidence.medium "minimization"

abbrev pub raw_payload_field : RuleDefinition
raw_payload_field = rule "OAM-PRIV-061" Severity.high Confidence.high "minimization"

-- `ALL_RULES`, which is sorted by the identifiers; they are in this order already.
abbrev pub all_rules : List RuleDefinition
all_rules =
    prohibited_credential_field ∷ authorization_header_value ∷ private_key_material ∷ jwt_token
    ∷ aws_access_key_id ∷ github_token ∷ gitlab_token ∷ slack_token ∷ payment_secret_key
    ∷ cloud_api_key ∷ url_userinfo ∷ evidence_reference_query ∷ connection_string_with_credentials
    ∷ connection_string_without_credentials ∷ high_entropy_token_candidate
    ∷ oversized_unfiltered_value ∷ raw_payload_field ∷ []

-- `RULES_BY_ID.get(id)`
abbrev find_rule : List RuleDefinition → String → Option RuleDefinition
find_rule [] id = none
find_rule (r ∷ rs) id = if r.id === id then some r else find_rule rs id

unfoldable pub rule_by_id : String → Option RuleDefinition
rule_by_id id = find_rule all_rules id

-- `PrivacyFinding`
pub record PrivacyFinding : Type 0 where
  pub rule_id : String
  pub severity : Severity
  pub confidence : Confidence
  pub path : String
  pub category : Option String
  pub event_id : Option String

-- `SEVERITY_ORDER.indexOf(severity)`; every severity is in that list.
abbrev pub severity_rank : Severity → ℕ
severity_rank critical = 0
severity_rank Severity.high = 1
severity_rank Severity.medium = 2
severity_rank Severity.low = 3
severity_rank info = 4

-- `LintStatus`
pub data LintStatus : Type 0 where
  clean findings schema_invalid : LintStatus
