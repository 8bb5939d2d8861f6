-- ===== src/Tests/Server.antt =====
-- The server with a list of origins, and a request that it takes.
use open_audit_model.Common.{
  String, ◌≡◌, refl, false, Option, none, some, [], ◌∷◌, if◌then◌else◌, trim_start, trim_end, trim,
  ◌===◌, Sign, ◌==◌, length,
}
use open_audit_model.Json.{Number, nat, end, obj, non_finite}
use open_audit_model.Json.Pointer.{split_from, split}
use open_audit_model.Integrity.Types.{Bytes}
use open_audit_model.Privacy.Platform.{Platform, Url}
use open_audit_model.Mcp.Config.{
  Env, read_integer, collect_origins, read_origins, read_hosts, read_log_level, load_config, info,
  ok, ServerConfig,
}
use open_audit_model.Mcp.Config.Bounds.{load_config-IsValid, IsValid}
use open_audit_model.Mcp.HttpServer.{
  is_origin_allowed, without_port, is_host_allowed, read_body, has_proto, admit, respond, failed,
  passed, Request, Runtime,
}
use open_audit_model.Mcp.HttpServer.Admitted.{admit-IsAdmitted, IsAdmitted}
use open_audit_model.Mcp.HttpServer.Logged.{respond-IsLogged, IsLogged}

abbrev url_of : String → Option Url
url_of text =
    if text === "https://a.example/x"
    then some (record {
      protocol = "https:";
      username = "";
      password = "";
      search = "";
      hash = "";
      origin = "https://a.example";
    })
    else none

abbrev platform : Platform
platform = record {
  parse_url = url_of;
  to_lower_case = λ text. text;
  parse_base64_json = λ text. none;
  reaches_threshold = λ text. false;
  locale_compare = λ s t. Sign.zero;
}

abbrev number_of : String → Number
number_of text = if text === "8080" then nat 8080 else non_finite "NaN"

abbrev env : Env
env name =
    if name === "PORT"
    then some "8080"
    else if name === "OAM_ALLOWED_ORIGINS"
    then some "https://a.example/x ,"
    else none

abbrev config : ServerConfig
config = record {
  host = "0.0.0.0";
  port = 8080;
  allowed_origins = "https://a.example" ∷ [];
  allowed_hosts = [];
  trust_proxy = false;
  max_request_bytes = 1000000;
  max_event_bytes = 256000;
  max_chain_events = 200;
  log_level = info;
  shutdown_grace_ms = 10000;
}

loaded : load_config platform number_of env ≡ ok config
unfolding load_config read_integer read_origins collect_origins read_hosts read_log_level split
    split_from trim trim_start trim_end
loaded = refl

load_config-IsValid_example : IsValid url_of env config
load_config-IsValid_example = load_config-IsValid platform number_of env config loaded

abbrev request : Request
request = record {
  method = "POST";
  url = some "/mcp?session=1";
  host = some "localhost:8080";
  forwarded_host = none;
  origin = some "https://a.example/x";
  chunks = (123 ∷ []) ∷ (125 ∷ []) ∷ [];
}

abbrev text_of : Bytes → String
text_of bytes = if length bytes == 2 then "{}" else ""

-- A handler that fails after its headers.
abbrev runtime : Runtime
runtime = record {
  decode = text_of;
  parse_json = λ text. if text === "{}" then some (obj end) else none;
  handle = λ r body. failed (some 200);
}

admitted : admit platform runtime config request ≡ passed (some (obj end))
unfolding admit is_host_allowed is_origin_allowed read_body has_proto without_port split split_from
    trim trim_start trim_end
admitted = refl

admit-IsAdmitted_example : IsAdmitted platform runtime config request (some (obj end))
admit-IsAdmitted_example =
    admit-IsAdmitted platform runtime config request (some (obj end)) admitted

respond-IsLogged_example :
    IsLogged runtime request
      (admit platform runtime config request)
      (respond platform runtime config request).status
      (respond platform runtime config request).lines
respond-IsLogged_example = respond-IsLogged platform runtime config request refl
