-- ===== src/Privacy/RedactKey.antt =====
-- conformance/src/privacy/redact-key.ts: property names that look like credentials.
use open_audit_model.Common.{
  String, Bool, true, false, not, ◌||◌, Option, none, some, List, [], ◌∷◌, map, if◌then◌else◌,
  is_none, ◌===◌, ◌+++◌,
}
use open_audit_model.Json.Pointer.{decode_reference_token, split}
use open_audit_model.Privacy.Platform.{Platform}
use open_audit_model.Privacy.UrlAnalysis.{
  analyze_url, analyze_connection_string, ConnectionStringKind, credentialed, UrlAnalysis,
}
use open_audit_model.Privacy.TokenPatterns.{
  matches_authorization_header, contains_private_key_material, is_jwt_structured,
  match_known_token_format, is_high_entropy_token_candidate,
}

-- `REDACTED_SEGMENT`
abbrev pub redacted_segment : String
redacted_segment = "<redacted>"

-- `analyzeUrl(text)?.hasUserinfo === true`
abbrev pub carries_userinfo : Option UrlAnalysis → Bool
carries_userinfo none = false
carries_userinfo (some url) = url.has_userinfo

abbrev is_credentialed : Option ConnectionStringKind → Bool
is_credentialed (some credentialed) = true
is_credentialed kind = false

-- `segments.join("/")`
abbrev pub join : List String → String
join [] = ""
join (s ∷ []) = s
join (s ∷ t ∷ ss) = s +++ ("/" +++ join (t ∷ ss))

module _ (platform : Platform) where
  -- `isCredentialShaped`
  unfoldable pub is_credential_shaped : String → Bool
  is_credential_shaped text =
      not (is_none (match_known_token_format platform text))
      || is_jwt_structured platform text
      || contains_private_key_material text
      || matches_authorization_header text
      || is_high_entropy_token_candidate platform text
      || carries_userinfo (analyze_url platform text)
      || is_credentialed (analyze_connection_string platform text)

  -- `redactKey`
  unfoldable pub redact_key : String → String
  redact_key key = if is_credential_shaped key then redacted_segment else key

  abbrev pub redact_segment : String → String
  redact_segment segment =
      if is_credential_shaped (decode_reference_token segment) then redacted_segment else segment

  abbrev pub redact_segments : List String → List String
  redact_segments [] = []
  redact_segments (s ∷ ss) = s ∷ map redact_segment ss

  -- `redactPointer`
  unfoldable pub redact_pointer : String → String
  redact_pointer pointer =
      if pointer === "" || pointer === "/"
      then pointer
      else join (redact_segments (split 47 pointer))
