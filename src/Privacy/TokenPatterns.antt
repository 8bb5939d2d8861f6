-- ===== src/Privacy/TokenPatterns.antt =====
-- conformance/src/privacy/token-patterns.ts and conformance/src/privacy/entropy.ts. The regular
-- expressions are written as matchers.
use Prim.Native.Char.{code}
use open_audit_model.Common.{
  ℕ, zero, suc, ◌+◌, ◌-◌, ◌%◌, String, Bool, false, not, ◌&&◌, ◌||◌, Option, none, some, List, [],
  ◌∷◌, ltb, ◌==◌, if◌then◌else◌, is_none, any, is_white_space, trim_start, trim, every_char,
  some_char, run_of, strip_prefix, same_code, same_letter, contains, is_digit_char, is_lower_char,
  is_upper_char, is_alphanumeric, utf16_length, prepend, ◌+++◌,
}
use open_audit_model.Json.{member, as_record, as_string, Fields}
use open_audit_model.Json.Pointer.{replace_char, split}
use open_audit_model.Privacy.Platform.{Platform}
use open_audit_model.Privacy.Rules.{
  jwt_token, aws_access_key_id, github_token, gitlab_token, slack_token, payment_secret_key,
  cloud_api_key, RuleDefinition,
}
use open_audit_model.Privacy.SafeFormats.{is_known_safe_format}

-- `(?:Bearer|Basic|Digest|ApiKey|Token)`, with the flag `i`
abbrev authorization_schemes : List String
authorization_schemes = "bearer" ∷ "basic" ∷ "digest" ∷ "apikey" ∷ "token" ∷ []

abbrev header_char : ℕ → Bool
header_char c =
    is_alphanumeric c || c == 46 || c == 95 || c == 126 || c == 43 || c == 47 || c == 61 || c == 45

-- `\s+[…]{16,4096}$`
abbrev spaced_value : String → Bool
spaced_value String.[] = false
spaced_value (String.◌∷◌ c s) = is_white_space (code c) && run_of header_char 16 4096 (trim_start s)

-- `AUTHORIZATION_HEADER`
abbrev after_scheme : String → String → Bool
after_scheme value scheme = elim (strip_prefix same_letter scheme value) [
  | none ↦ false
  | some rest ↦ spaced_value rest
]

-- `matchesAuthorizationHeader`
unfoldable pub matches_authorization_header : String → Bool
matches_authorization_header value = any (after_scheme (trim value)) authorization_schemes

-- `PRIVATE_KEY_MARKERS`
abbrev pub private_key_markers : List String
private_key_markers =
    "BEGIN PRIVATE KEY" ∷ "BEGIN RSA PRIVATE KEY" ∷ "BEGIN DSA PRIVATE KEY" ∷ "BEGIN EC PRIVATE KEY"
    ∷ "BEGIN OPENSSH PRIVATE KEY" ∷ "BEGIN PGP PRIVATE KEY BLOCK" ∷ "BEGIN ENCRYPTED PRIVATE KEY"
    ∷ []

-- `containsPrivateKeyMaterial`
unfoldable pub contains_private_key_material : String → Bool
contains_private_key_material value = any (λ marker. contains marker value) private_key_markers

abbrev url_char : ℕ → Bool
url_char c = is_alphanumeric c || c == 95 || c == 45

-- `BASE64URL_SEGMENT`
abbrev pub is_base64url_segment : String → Bool
is_base64url_segment s = run_of url_char 4 8192 s

-- One of `PREFIXED_TOKEN_PATTERNS`: a prefix, and then characters of a class.
pub record TokenPattern : Type 0 where
  pub prefixes : List String
  pub class : ℕ → Bool
  pub least : ℕ
  pub most : ℕ
  pub rule_id : String

abbrev pattern_of : List String → (ℕ → Bool) → ℕ → ℕ → RuleDefinition → TokenPattern
pattern_of prefixes class least most rule = record {
  prefixes = prefixes;
  class = class;
  least = least;
  most = most;
  rule_id = rule.id;
}

-- `PREFIXED_TOKEN_PATTERNS`
abbrev pub prefixed_token_patterns : List TokenPattern
prefixed_token_patterns =
    pattern_of ("AKIA" ∷ "ASIA" ∷ []) (λ c. is_upper_char c || is_digit_char c) 16 16
      aws_access_key_id
    ∷ pattern_of ("ghp_" ∷ "gho_" ∷ "ghu_" ∷ "ghs_" ∷ "ghr_" ∷ []) is_alphanumeric 36 255
        github_token
    ∷ pattern_of ("github_pat_" ∷ []) (λ c. is_alphanumeric c || c == 95) 22 255 github_token
    ∷ pattern_of ("glpat-" ∷ []) url_char 20 255 gitlab_token
    ∷ pattern_of ("xoxa-" ∷ "xoxb-" ∷ "xoxp-" ∷ "xoxr-" ∷ "xoxs-" ∷ [])
        (λ c. is_alphanumeric c || c == 45) 10 255 slack_token
    ∷ pattern_of ("sk_live_" ∷ "sk_test_" ∷ "rk_live_" ∷ "rk_test_" ∷ []) is_alphanumeric 16 255
        payment_secret_key
    ∷ pattern_of ("AIza" ∷ []) url_char 35 35 cloud_api_key
    ∷ []

abbrev after_prefix : TokenPattern → String → String → Bool
after_prefix p value prefix = elim (strip_prefix same_code prefix value) [
  | none ↦ false
  | some rest ↦ run_of p.class p.least p.most rest
]

-- `pattern.test(value)`
abbrev pub fits : TokenPattern → String → Bool
fits p value = any (after_prefix p value) p.prefixes

abbrev first_fit : List TokenPattern → String → Option String
first_fit [] value = none
first_fit (p ∷ ps) value = if fits p value then some p.rule_id else first_fit ps value

abbrev without_last : String → String
without_last String.[] = ""
without_last (String.◌∷◌ c String.[]) = ""
without_last (String.◌∷◌ c (String.◌∷◌ d s)) = prepend c (without_last (String.◌∷◌ d s))

abbrev equals_signs : ℕ → String
equals_signs zero = ""
equals_signs (suc n) = "=" +++ equals_signs n

-- The text that `decodeJsonObject` hands to `atob`.
unfoldable pub padded : String → String
padded segment =
    let base64 = replace_char 95 "/" (replace_char 45 "+" segment) in
    let cut = if utf16_length base64 % 4 == 1 then without_last base64 else base64 in
    cut +++ equals_signs ((4 - utf16_length cut % 4) % 4)

-- `characterClassCount`
abbrev pub character_class_count : String → ℕ
character_class_count value =
    (if some_char is_lower_char value then 1 else 0)
    + (if some_char is_upper_char value then 1 else 0)
    + (if some_char is_digit_char value then 1 else 0)
    + (if some_char (λ c. not (is_alphanumeric c)) value then 1 else 0)

-- `TOKEN_ALPHABET`
abbrev token_char : ℕ → Bool
token_char c = is_alphanumeric c || c == 43 || c == 47 || c == 61 || c == 95 || c == 46 || c == 45

module _ (platform : Platform) where
  open platform use {to_lower_case, parse_base64_json, reaches_threshold}

  -- `decodeJsonObject`
  abbrev pub decode_json_object : String → Option Fields
  decode_json_object segment = elim (parse_base64_json (padded segment)) [
    | none ↦ none
    | some v ↦ as_record v
  ]

  abbrev has_algorithm : Option Fields → Bool
  has_algorithm none = false
  has_algorithm (some fs) = not (is_none (as_string (member fs "alg")))

  abbrev three_segments : List String → Bool
  three_segments (header ∷ payload ∷ signature ∷ []) =
      (is_base64url_segment header && is_base64url_segment payload)
      && has_algorithm (decode_json_object header)
      && not (is_none (decode_json_object payload))
  three_segments segments = false

  -- `isJwtStructured`
  unfoldable pub is_jwt_structured : String → Bool
  is_jwt_structured value = three_segments (split 46 value)

  -- `matchKnownTokenFormat`
  unfoldable pub match_known_token_format : String → Option String
  match_known_token_format value =
      if is_jwt_structured value then some jwt_token.id else first_fit prefixed_token_patterns value

  -- `isHighEntropyTokenCandidate`
  unfoldable pub is_high_entropy_token_candidate : String → Bool
  is_high_entropy_token_candidate value =
      if ltb (utf16_length value) 24 || ltb 4096 (utf16_length value)
      then false
      else if some_char is_white_space value
      then false
      else if not (every_char token_char value)
      then false
      else if ltb (character_class_count value) 3
      then false
      else if is_known_safe_format to_lower_case value
      then false
      else reaches_threshold value
