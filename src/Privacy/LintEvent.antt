-- ===== src/Privacy/LintEvent.antt =====
-- conformance/src/privacy/lint-event.ts. How a schema issue is rendered as a line and the wording of
-- the signals are not modelled.
pub mod Report
pub mod Once
use open_audit_model.Common.{
  ℕ, ◌+◌, String, Bool, true, false, not, ◌&&◌, ◌||◌, Option, none, some, List, [], ◌∷◌, ◌++◌,
  if◌then◌else◌, select, flat_map, contains, decimal, ◌+++◌,
}
use open_audit_model.Json.{field, Items, cons, nil, Value, undef, obj, arr, num, str}
use open_audit_model.Privacy.Platform.{Platform}
use open_audit_model.Privacy.Rules.{
  prohibited_credential_field, authorization_header_value, private_key_material, url_userinfo,
  evidence_reference_query, connection_string_with_credentials,
  connection_string_without_credentials, high_entropy_token_candidate, oversized_unfiltered_value,
  raw_payload_field, rule_by_id, Confidence, RuleDefinition, PrivacyFinding,
}
use open_audit_model.Privacy.SafeFormats.{is_redaction_placeholder}
use open_audit_model.Privacy.FieldNames.{
  is_prohibited_credential_field_name, is_raw_payload_field_name, is_suspicious_field_name,
}
use open_audit_model.Privacy.UrlAnalysis.{
  analyze_url, is_data_system_scheme, analyze_connection_string, ConnectionStringKind, credentialed,
  uncredentialed, UrlAnalysis,
}
use open_audit_model.Privacy.TokenPatterns.{
  matches_authorization_header, contains_private_key_material, match_known_token_format,
  is_high_entropy_token_candidate,
}
use open_audit_model.Privacy.SizeAnalysis.{size_thresholds, profile_value, exceeded_signals, Signal}
use open_audit_model.Privacy.Traverse.{read_path, traverse, VisitedValue}

-- `Root`
pub record Root : Type 0 where
  pub path : String
  pub value : Value

-- `add` of `deepRoots`
abbrev pub add_defined : String → Value → List Root
add_defined path undef = []
add_defined path value = record { path = path; value = value } ∷ []

-- `add` of `scalarLocations`
abbrev pub add_text : String → Value → List Root
add_text path (str s) = record { path = path; value = str s } ∷ []
add_text path value = []

abbrev pub attributes_path : ℕ → String
attributes_path index = "/relatedResources/" +++ (decimal index +++ "/attributes")

abbrev pub related_roots : ℕ → Items → List Root
related_roots index nil = []
related_roots index (cons entry xs) =
    add_defined (attributes_path index) (read_path entry ("attributes" ∷ []))
    ++ related_roots (index + 1) xs

abbrev pub related_of : Value → List Root
related_of (arr xs) = related_roots 0 xs
related_of related = []

-- The calls of `add` in `deepRoots`, with the properties that each reads.
abbrev pub deep_paths : List (String × List String)
deep_paths =
    ("/metadata", "metadata" ∷ [])
    ∷ ("/extensions", "extensions" ∷ [])
    ∷ ("/actor/attributes", "actor" ∷ "attributes" ∷ [])
    ∷ ("/subject/attributes", "subject" ∷ "attributes" ∷ [])
    ∷ ("/resource/attributes", "resource" ∷ "attributes" ∷ [])
    ∷ ("/change/before", "change" ∷ "before" ∷ [])
    ∷ ("/change/after", "change" ∷ "after" ∷ [])
    ∷ []

abbrev pub roots_at : (String → Value → List Root) → Value → List (String × List String) → List Root
roots_at add event [] = []
roots_at add event ((path, names) ∷ ps) = add path (read_path event names) ++ roots_at add event ps

-- `deepRoots`
unfoldable pub deep_roots : Value → List Root
deep_roots event =
    roots_at add_defined event deep_paths ++ related_of (read_path event ("relatedResources" ∷ []))

-- The calls of `add` in `scalarLocations`.
abbrev pub scalar_paths : List (String × List String)
scalar_paths =
    ("/event/summary", "event" ∷ "summary" ∷ [])
    ∷ ("/event/error/message", "event" ∷ "error" ∷ "message" ∷ [])
    ∷ ("/reason/text", "reason" ∷ "text" ∷ [])
    ∷ ("/reason/reference", "reason" ∷ "reference" ∷ [])
    ∷ ("/request/route", "request" ∷ "route" ∷ [])
    ∷ ("/authorization/reason", "authorization" ∷ "reason" ∷ [])
    ∷ ("/delegation/reason", "delegation" ∷ "reason" ∷ [])
    ∷ []

-- `scalarLocations`
unfoldable pub scalar_locations : Value → List Root
scalar_locations event = roots_at add_text event scalar_paths

-- `value !== null && typeof value === "object"`
abbrev pub is_container : Value → Bool
is_container (arr xs) = true
is_container (obj fs) = true
is_container v = false

-- `sizeRoots`
unfoldable pub size_roots : Value → List Root
size_roots event = select (λ root. is_container root.value) (deep_roots event)

abbrev pub reference_path : ℕ → String
reference_path index = "/evidence/" +++ (decimal index +++ "/reference")

abbrev pub references_from : ℕ → Items → List Root
references_from index nil = []
references_from index (cons entry xs) =
    add_text (reference_path index) (read_path entry ("reference" ∷ []))
    ++ references_from (index + 1) xs

abbrev pub references_of : Value → List Root
references_of (arr xs) = references_from 0 xs
references_of evidence = []

-- `evidenceReferences`
unfoldable pub evidence_references : Value → List Root
evidence_references event = references_of (read_path event ("evidence" ∷ []))

-- `finding`, with the confidence that an override gives
abbrev pub rule_finding : RuleDefinition → Confidence → String → PrivacyFinding
rule_finding rule confidence path = record {
  rule_id = rule.id;
  severity = rule.severity;
  confidence = confidence;
  path = path;
  category = some rule.category;
  event_id = none;
}

abbrev pub finding_of : RuleDefinition → String → PrivacyFinding
finding_of rule path = rule_finding rule rule.confidence path

abbrev pub found : Bool → RuleDefinition → String → List PrivacyFinding
found holds rule path = if holds then finding_of rule path ∷ [] else []

module _ (platform : Platform) where
  open platform use {to_lower_case, locale_compare}

  -- `isCredentialValue`
  abbrev pub is_credential_value : Value → Bool
  is_credential_value (str s) = not (is_redaction_placeholder to_lower_case s)
  is_credential_value (num n) = true
  is_credential_value v = false

  -- `isPopulated`
  abbrev pub is_populated : Value → Bool
  is_populated (str s) = not (is_redaction_placeholder to_lower_case s)
  is_populated (arr (cons v xs)) = true
  is_populated (obj (field k v fs)) = true
  is_populated (num n) = true
  is_populated v = false

  abbrev pub token_findings : Option String → String → List PrivacyFinding
  token_findings none path = []
  token_findings (some id) path = elim (rule_by_id id) [
    | none ↦ []
    | some rule ↦ finding_of rule path ∷ []
  ]

  abbrev pub connection_findings : Option ConnectionStringKind → String → List PrivacyFinding
  connection_findings none path = []
  connection_findings (some credentialed) path =
      finding_of connection_string_with_credentials path ∷ []
  connection_findings (some uncredentialed) path =
      finding_of connection_string_without_credentials path ∷ []

  abbrev pub url_findings : Option UrlAnalysis → String → List PrivacyFinding
  url_findings none path = []
  url_findings (some url) path =
      found (url.has_userinfo && not (is_data_system_scheme platform url.scheme)) url_userinfo path

  -- The findings that are not the heuristic's.
  unfoldable pub strong_findings : String → String → List PrivacyFinding
  strong_findings value path =
      found (matches_authorization_header value) authorization_header_value path
      ++ (found (contains_private_key_material value) private_key_material path
          ++ (token_findings (match_known_token_format platform value) path
              ++ (connection_findings (analyze_connection_string platform value) path
                  ++ url_findings (analyze_url platform value) path)))

  abbrev pub entropy_confidence : Option String → Confidence
  entropy_confidence none = Confidence.low
  entropy_confidence (some key) =
      if is_suspicious_field_name to_lower_case key then Confidence.medium else Confidence.low

  abbrev pub or_heuristic :
      List PrivacyFinding → Bool → String → Option String → List PrivacyFinding
  or_heuristic [] true path key =
      rule_finding high_entropy_token_candidate (entropy_confidence key) path ∷ []
  or_heuristic strong candidate path key = strong

  -- `valueFindings`
  unfoldable pub value_findings : String → String → Option String → List PrivacyFinding
  value_findings value path key =
      or_heuristic (strong_findings value path) (is_high_entropy_token_candidate platform value)
        path key

  -- `nameFindings`
  unfoldable pub name_findings : String → Value → String → List PrivacyFinding
  name_findings key value path =
      found (is_prohibited_credential_field_name to_lower_case key && is_credential_value value)
        prohibited_credential_field path
      ++ found (is_raw_payload_field_name to_lower_case key && is_populated value) raw_payload_field
          path

  -- `evidenceFindings`
  unfoldable pub evidence_findings : String → String → List PrivacyFinding
  evidence_findings value path = elim (analyze_url platform value) [
    | some url ↦ found (url.has_query || url.has_fragment) evidence_reference_query path
    | none ↦ found (contains "?" value || contains "#" value) evidence_reference_query path
  ]

  abbrev pub key_findings : Option String → Value → String → List PrivacyFinding
  key_findings none value path = []
  key_findings (some key) value path = name_findings key value path ++ value_findings key path none

  abbrev pub text_findings : Value → String → Option String → List PrivacyFinding
  text_findings (str s) path key = value_findings s path key
  text_findings v path key = []

  -- What one visit of `traverse` collects.
  unfoldable pub visited_findings : VisitedValue → List PrivacyFinding
  visited_findings v = key_findings v.key v.value v.path ++ text_findings v.value v.path v.key

  abbrev pub root_findings : Root → List PrivacyFinding
  root_findings root = flat_map visited_findings (traverse platform root.value root.path)

  abbrev pub location_findings : Root → List PrivacyFinding
  location_findings root = text_findings root.value root.path none

  abbrev pub evidence_text : Value → String → List PrivacyFinding
  evidence_text (str s) path = evidence_findings s path
  evidence_text v path = []

  abbrev pub reference_findings : Root → List PrivacyFinding
  reference_findings root =
      evidence_text root.value root.path ++ text_findings root.value root.path none

  abbrev pub has_signals : List Signal → Bool
  has_signals [] = false
  has_signals (s ∷ ss) = true

  abbrev pub size_findings : Root → List PrivacyFinding
  size_findings root =
      found (has_signals (exceeded_signals (profile_value root.value) size_thresholds))
        oversized_unfiltered_value root.path

  -- `collected`
  unfoldable pub collected : Value → List PrivacyFinding
  collected event =
      flat_map root_findings (deep_roots event)
      ++ (flat_map location_findings (scalar_locations event)
          ++ (flat_map reference_findings (evidence_references event)
              ++ flat_map size_findings (size_roots event)))
