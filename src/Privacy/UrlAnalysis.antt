-- ===== src/Privacy/UrlAnalysis.antt =====
-- conformance/src/privacy/url-analysis.ts.
use open_audit_model.Common.{
  ℕ, ◌+◌, String, Bool, false, not, ◌&&◌, ◌||◌, Option, none, some, List, [], ◌∷◌, ltb, ◌==◌,
  if◌then◌else◌, is_blank, trim, contains, cut_at, without, ◌===◌, includes, utf16_length,
}
use open_audit_model.Json.Pointer.{split}
use open_audit_model.Privacy.Platform.{Platform}

-- `UrlAnalysis`
pub record UrlAnalysis : Type 0 where
  pub scheme : String
  pub has_userinfo : Bool
  pub has_password : Bool
  pub has_query : Bool
  pub has_fragment : Bool

-- `DATA_SYSTEM_SCHEMES`
abbrev pub data_system_schemes : List String
data_system_schemes =
    "postgres:" ∷ "postgresql:" ∷ "mysql:" ∷ "mariadb:" ∷ "mongodb:" ∷ "mongodb+srv:" ∷ "redis:"
    ∷ "rediss:" ∷ "amqp:" ∷ "amqps:" ∷ "mssql:" ∷ "sqlserver:" ∷ "oracle:" ∷ "jdbc:" ∷ "cassandra:"
    ∷ "clickhouse:" ∷ "db2:" ∷ "ftp:" ∷ "ftps:" ∷ "sftp:" ∷ "smb:" ∷ []

-- `CONNECTION_STRING_KEYS`
abbrev pub connection_string_keys : List String
connection_string_keys =
    "server" ∷ "host" ∷ "hostname" ∷ "datasource" ∷ "initialcatalog" ∷ "database" ∷ "userid" ∷ "uid"
    ∷ "username" ∷ "user" ∷ "password" ∷ "pwd" ∷ "port" ∷ "endpoint" ∷ "accountname" ∷ "accountkey"
    ∷ "sharedaccesskey" ∷ "integratedsecurity" ∷ "encrypt" ∷ "trustservercertificate" ∷ []

-- `CONNECTION_STRING_SECRET_KEYS`
abbrev pub connection_string_secret_keys : List String
connection_string_secret_keys = "password" ∷ "pwd" ∷ "accountkey" ∷ "sharedaccesskey" ∷ []

-- `ConnectionStringKind`
pub data ConnectionStringKind : Type 0 where
  credentialed uncredentialed : ConnectionStringKind

-- `[-_. ]`
abbrev pub is_name_separator : ℕ → Bool
is_name_separator c = c == 45 || c == 95 || c == 46 || c == 32

-- The variables of the loop over the pairs.
pub record Pairs : Type 0 where
  pub recognised_keys : ℕ
  pub credentialed : Bool

module _ (platform : Platform) where
  open platform use {parse_url, to_lower_case}

  -- `analyzeUrl`
  unfoldable pub analyze_url : String → Option UrlAnalysis
  analyze_url value =
      let trimmed = trim value in
      if not (contains ":" trimmed) then none else elim (parse_url trimmed) [
        | none ↦ none
        | some url ↦ some (record {
          scheme = url.protocol;
          has_userinfo = not (url.username === "") || not (url.password === "");
          has_password = not (url.password === "");
          has_query = not (url.search === "");
          has_fragment = not (url.hash === "");
        })
      ]

  -- `isDataSystemScheme`
  unfoldable pub is_data_system_scheme : String → Bool
  is_data_system_scheme scheme = includes data_system_schemes (to_lower_case scheme)

  abbrev key_of : String → String
  key_of text = without is_name_separator (to_lower_case (trim text))

  abbrev with_pair : String → Bool → Pairs → Pairs
  with_pair key has_value pairs =
      if not (includes connection_string_keys key) then pairs else record {
        recognised_keys = pairs.recognised_keys + 1;
        credentialed =
            pairs.credentialed || (includes connection_string_secret_keys key && has_value);
      }

  -- One round of the loop; a pair without `=`, or that begins with it, is passed over.
  abbrev pub read_pair : Pairs → String → Pairs
  read_pair pairs pair = elim (cut_at 61 pair) [
    | none ↦ pairs
    | some (name, value) ↦
        if is_blank name then pairs else with_pair (key_of name) (not (trim value === "")) pairs
  ]

  unfoldable pub read_pairs : Pairs → List String → Pairs
  read_pairs pairs [] = pairs
  read_pairs pairs (p ∷ ps) = read_pairs (read_pair pairs p) ps

  abbrev kind_of : Pairs → Option ConnectionStringKind
  kind_of pairs =
      if ltb pairs.recognised_keys 2
      then none
      else if pairs.credentialed
      then some credentialed
      else some uncredentialed

  -- `analyzeKeyValueConnectionString`
  unfoldable pub analyze_key_value_connection_string : String → Option ConnectionStringKind
  analyze_key_value_connection_string value =
      if not (contains "=" value) || not (contains ";" value)
      then none
      else if ltb 8192 (utf16_length value)
      then none
      else kind_of
          (read_pairs (record { recognised_keys = 0; credentialed = false }) (split 59 value))

  -- `analyzeConnectionString`
  unfoldable pub analyze_connection_string : String → Option ConnectionStringKind
  analyze_connection_string value =
      let pairs = analyze_key_value_connection_string value in
      elim (analyze_url value) [
        | none ↦ pairs
        | some url ↦
            if is_data_system_scheme url.scheme
            then (if url.has_password then some credentialed else some uncredentialed)
            else pairs
      ]
