-- ===== src/Privacy/Platform.antt =====
-- What the privacy linter uses of the JavaScript platform and is not read here: the URL parser, the
-- lower case of Unicode, the decoder of base64 with the JSON parser, and floating point.
use open_audit_model.Common.{String, Bool, Option, Sign}
use open_audit_model.Json.{Value}

-- The members of a `URL` that the source reads.
pub record Url : Type 0 where
  pub protocol : String
  pub username : String
  pub password : String
  pub search : String
  pub hash : String
  pub origin : String

pub record Platform : Type 0 where
  -- `new URL(text)`; `none` is a throw
  pub parse_url : String → Option Url
  -- `text.toLowerCase()`
  pub to_lower_case : String → String
  -- `JSON.parse(new TextDecoder("utf-8").decode(bytes of atob(text)))`; `none` is a throw
  pub parse_base64_json : String → Option Value
  -- `shannonEntropy(value) >= ENTROPY_THRESHOLD`, which is computed in floating point
  pub reaches_threshold : String → Bool
  -- `left.localeCompare(right, "en")`
  pub locale_compare : String → String → Sign
