-- ===== src/Mcp/HttpServer.antt =====
-- mcp/src/http-server.ts and mcp/src/logging.ts: what the server answers to a request and what it
-- logs. The bytes of a body, their decoding, the JSON parser and the handler of the protocol are
-- parameters; timeouts, sockets, and the text of the bodies are not modelled.
pub mod Admitted
pub mod Logged
use open_audit_model.Common.{
  ℕ, ◌+◌, String, Bool, true, false, not, ◌&&◌, ◌||◌, Option, none, some, List, [], ◌∷◌, ◌++◌, ltb,
  ◌==◌, if◌then◌else◌, value_or, length, select, is_blank, trim, every_char, without, is_digit_char,
  ◌===◌, includes, prepend, has,
}
use Prim.Native.Char.{code}
use open_audit_model.Json.{
  fields, member, Fields, field, end, Items, cons, nil, Value, obj, arr, str,
}
use open_audit_model.Json.Pointer.{split}
use open_audit_model.Integrity.Types.{Bytes}
use open_audit_model.Privacy.Platform.{Platform}
use open_audit_model.Mcp.Config.{LogLevel, debug, info, error, silent, ServerConfig}

-- The parts of a request that the server reads. The chunks are those that the body is read in.
pub record Request : Type 0 where
  pub method : String
  pub url : Option String
  pub host : Option String
  pub forwarded_host : Option String
  pub origin : Option String
  pub chunks : List Bytes

-- How the handler of the protocol ends: with a status, or with an error, and the status whose headers
-- it has sent by then, if it has.
pub data Handled : Type 0 where
  handled : ℕ → Handled
  failed : Option ℕ → Handled

-- What the server does not implement.
pub record Runtime : Type 0 where
  -- `body.toString("utf8")`
  pub decode : Bytes → String
  -- `JSON.parse`; `none` is a throw
  pub parse_json : String → Option Value
  -- `mcpNodeHandler`, with the parsed body
  pub handle : Request → Option Value → Handled

-- The `resultCategory` of a log line.
pub data Category : Type 0 where
  host_rejected origin_rejected healthy request_too_large proto_member invalid_json : Category
  batch_refused listen_refused mcp not_found internal_error : Category

-- A line of the log, by the fields that differ.
pub record LogLine : Type 0 where
  pub level : LogLevel
  pub route : String
  pub status_code : Option ℕ
  pub category : Category

-- `ORDER`
abbrev pub order : LogLevel → ℕ
order LogLevel.debug = 10
order LogLevel.info = 20
order LogLevel.error = 30
order LogLevel.silent = 40

-- `emit` of `createLogger`: whether a line is written
abbrev pub emits : LogLevel → LogLevel → Bool
emits LogLevel.silent severity = false
emits level severity = not (ltb (order severity) (order level))

-- `isOriginAllowed`
unfoldable pub is_origin_allowed : Platform → Option String → List String → Bool
is_origin_allowed platform none allowed = true
is_origin_allowed platform (some origin) allowed =
    if origin === ""
    then true
    else if platform.to_lower_case origin === "null"
    then false
    else elim (platform.parse_url origin) [ none ↦ false | some url ↦ includes allowed url.origin ]

-- `LOCAL_HOSTS`
abbrev pub local_hosts : List String
local_hosts = "localhost" ∷ "127.0.0.1" ∷ "[::1]" ∷ "::1" ∷ []

-- `host.replace(/\]:\d+$/, "]")`
abbrev is_port : String → Bool
is_port String.[] = false
is_port (String.◌∷◌ c s) = code c == 58 && not (is_blank s) && every_char is_digit_char s

unfoldable pub without_port : String → String
without_port String.[] = ""
without_port (String.◌∷◌ c s) =
    let rest = without_port s in if code c == 93 && is_port s then "]" else prepend c rest

abbrev pub first_part : List String → String
first_part [] = ""
first_part (s ∷ ss) = s

-- The host without its port.
abbrev pub host_name : String → String
host_name String.[] = ""
host_name (String.◌∷◌ c s) =
    if code c == 91 then without_port (String.◌∷◌ c s) else first_part (split 58 (String.◌∷◌ c s))

-- The host that is asked for: the forwarded one, where a proxy is trusted and sends it.
abbrev pub requested_host : Platform → Request → ServerConfig → String
requested_host platform request config =
    let forwarded = trim (first_part (split 44 (value_or request.forwarded_host ""))) in
    let direct = value_or request.host "" in
    trim (
      platform.to_lower_case
        (if config.trust_proxy && not (forwarded === "") then forwarded else direct))

-- `isHostAllowed`
unfoldable pub is_host_allowed : Platform → Request → ServerConfig → Bool
is_host_allowed platform request config =
    let host = requested_host platform request config in
    let allowed : List String = elim config.allowed_hosts [ [] ↦ local_hosts | h ∷ hs ↦ h ∷ hs ] in
    if host === "" then false else includes allowed (host_name host) || includes allowed host

-- `readBody` from the chunks that are kept and their bytes; `none` is `"too-large"`
unfoldable pub read_body : ℕ → List Bytes → Bytes → ℕ → Option Bytes
read_body limit [] kept total = some kept
read_body limit (c ∷ cs) kept total =
    let rest = read_body limit cs (kept ++ c) (total + length c) in
    if ltb limit (total + length c) then none else rest

-- Whether the reviver of `parseRequestBody` meets a member named `__proto__`.
unfoldable mutual
  pub has_proto : Value → Bool
  has_proto (arr xs) = items_have_proto xs
  has_proto (obj fs) = fields_have_proto fs
  has_proto v = false

  pub items_have_proto : Items → Bool
  items_have_proto nil = false
  items_have_proto (cons v xs) = has_proto v || items_have_proto xs

  pub fields_have_proto : Fields → Bool
  fields_have_proto end = false
  fields_have_proto (field k v fs) = k === "__proto__" || has_proto v || fields_have_proto fs

-- `listenRequest`
abbrev pub is_listen : Value → Bool
is_listen (obj fs) = elim (member fs "method") [ str s ↦ s === "subscriptions/listen" | _ ↦ false ]
is_listen v = false

-- What is decided of a request before the handler of the protocol: an answer with its status, or the
-- body that is passed on.
pub data Admission : Type 0 where
  answered : ℕ → Category → Admission
  passed : Option Value → Admission

abbrev pub path_of : Request → String
path_of request = first_part (split 63 (value_or request.url "/"))

abbrev pub after_parse : Value → Admission
after_parse (arr xs) = answered 400 batch_refused
after_parse v = if is_listen v then answered 200 listen_refused else passed (some v)

module _ (platform : Platform) (runtime : Runtime) where
  -- `parseRequestBody`, and what follows it
  abbrev pub parse_body : Bytes → Admission
  parse_body body = elim (runtime.parse_json (runtime.decode body)) [
    | none ↦ answered 400 invalid_json
    | some v ↦ if has_proto v then answered 400 proto_member else after_parse v
  ]

  abbrev pub with_body : Option Bytes → Admission
  with_body none = answered 413 request_too_large
  with_body (some []) = passed none
  with_body (some (b ∷ bs)) = parse_body (b ∷ bs)

  -- The route `/mcp`
  abbrev pub mcp_route : ServerConfig → Request → Admission
  mcp_route config request =
      if request.method === "POST"
      then with_body (read_body config.max_request_bytes request.chunks [] 0)
      else passed none

  -- The guards and the routes of a request, in their order.
  unfoldable pub admit : ServerConfig → Request → Admission
  admit config request =
      if not (is_host_allowed platform request config)
      then answered 403 host_rejected
      else if not (is_origin_allowed platform request.origin config.allowed_origins)
      then answered 403 origin_rejected
      else if path_of request === "/health" && request.method === "GET"
      then answered 200 healthy
      else if path_of request === "/" && request.method === "GET"
      then answered 200 healthy
      else if path_of request === "/mcp"
      then mcp_route config request
      else answered 404 not_found

  -- `LOGGED_ROUTES`
  abbrev pub logged_routes : List String
  logged_routes = "/" ∷ "/health" ∷ "/mcp" ∷ []

  abbrev pub route_of : Request → String
  route_of request = if includes logged_routes (path_of request) then path_of request else "other"

  -- The answer to a request and the lines that are logged for it.
  pub record Exchange : Type 0 where
    pub status : ℕ
    pub lines : List LogLine

  -- `finish`
  abbrev pub finish : String → ℕ → Category → LogLine
  finish route status category = record {
    level = LogLevel.info;
    route = route;
    status_code = some status;
    category = category;
  }

  abbrev error_line : String → LogLine
  error_line route = record {
    level = LogLevel.error;
    route = route;
    status_code = none;
    category = internal_error;
  }

  abbrev pub handled_exchange : String → Handled → Exchange
  handled_exchange route (handled status) = record {
    status = status;
    lines = finish route status mcp ∷ [];
  }
  handled_exchange route (failed sent) = record {
    status = value_or sent 500;
    lines = error_line route ∷ finish route 500 internal_error ∷ [];
  }

  abbrev pub exchange_of : Request → Admission → Exchange
  exchange_of request (answered status category) = record {
    status = status;
    lines = finish (route_of request) status category ∷ [];
  }
  exchange_of request (passed body) =
      handled_exchange (route_of request) (runtime.handle request body)

  -- `createHttpApplication`: what one request comes to, with the lines that the log level lets pass
  unfoldable pub respond : ServerConfig → Request → Exchange
  respond config request =
      let e = exchange_of request (admit config request) in
      record { status = e.status; lines = select (λ l. emits config.log_level l.level) e.lines }
