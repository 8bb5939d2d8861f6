-- ===== src/Privacy/FieldNames.antt =====
-- conformance/src/privacy/field-names.ts: the names of properties, compared after normalization.
use open_audit_model.Common.{
  String, Bool, Option, none, some, List, [], ◌∷◌, if◌then◌else◌, any, is_blank, after_last,
  without, includes,
}
use open_audit_model.Privacy.UrlAnalysis.{is_name_separator}

-- `PROHIBITED_CREDENTIAL_FIELD_NAMES`
abbrev pub prohibited_credential_field_names : List String
prohibited_credential_field_names =
    "password" ∷ "passwd" ∷ "pwd" ∷ "passphrase" ∷ "secret" ∷ "clientsecret" ∷ "secretkey"
    ∷ "credential" ∷ "credentials" ∷ "accesstoken" ∷ "refreshtoken" ∷ "idtoken" ∷ "authtoken"
    ∷ "bearertoken" ∷ "sessiontoken" ∷ "apikey" ∷ "privatekey" ∷ "signingkey" ∷ "encryptionkey"
    ∷ "connectionstring" ∷ "authorization" ∷ "proxyauthorization" ∷ "sessioncookie" ∷ "cookie"
    ∷ "setcookie" ∷ []

-- `RAW_PAYLOAD_FIELD_NAMES`
abbrev pub raw_payload_field_names : List String
raw_payload_field_names =
    "requestbody" ∷ "responsebody" ∷ "rawrequest" ∷ "rawresponse" ∷ "httpbody" ∷ "messagepayload"
    ∷ "messagebody" ∷ "brokerpayload" ∷ "databaserow" ∷ "fullrecord" ∷ []

-- `SUSPICIOUS_FIELD_NAME_HINTS`
abbrev pub suspicious_field_name_hints : List String
suspicious_field_name_hints =
    "token" ∷ "key" ∷ "secretvalue" ∷ "credentialvalue" ∷ "auth" ∷ "authvalue" ∷ "signature"
    ∷ "nonce" ∷ "salt" ∷ "seed" ∷ "apitoken" ∷ "accesskey" ∷ "secretaccesskey" ∷ []

module _ (to_lower_case : String → String) where
  -- `normalizeFieldName`
  abbrev pub normalize_field_name : String → String
  normalize_field_name name = without is_name_separator (to_lower_case name)

  -- What follows the last dot, where that is not empty.
  abbrev last_segment : Option String → List String
  last_segment none = []
  last_segment (some s) = if is_blank s then [] else normalize_field_name s ∷ []

  -- `candidateNames`: the last dot counts where it is not the first character.
  unfoldable pub candidate_names : String → List String
  candidate_names String.[] = normalize_field_name "" ∷ []
  candidate_names (String.◌∷◌ c s) =
      normalize_field_name (String.◌∷◌ c s) ∷ last_segment (after_last 46 s)

  -- `matchesAny`
  abbrev pub matches_any : List String → String → Bool
  matches_any registry name = any (includes registry) (candidate_names name)

  -- `isProhibitedCredentialFieldName`
  unfoldable pub is_prohibited_credential_field_name : String → Bool
  is_prohibited_credential_field_name name = matches_any prohibited_credential_field_names name

  -- `isRawPayloadFieldName`
  unfoldable pub is_raw_payload_field_name : String → Bool
  is_raw_payload_field_name name = matches_any raw_payload_field_names name

  -- `isSuspiciousFieldName`
  unfoldable pub is_suspicious_field_name : String → Bool
  is_suspicious_field_name name = matches_any suspicious_field_name_hints name
