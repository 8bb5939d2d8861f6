-- ===== src/Mcp/Config.antt =====
-- mcp/src/config.ts: the configuration that the server starts with. `Number` on texts is a parameter,
-- beside the URL parser and the lower case of Privacy/Platform; -0 is read as 0.
pub mod Bounds
use open_audit_model.Common.{
  ℕ, String, Bool, true, not, ◌&&◌, ◌||◌, Option, none, some, List, [], ◌∷◌, ◌++◌, map, ltb,
  if◌then◌else◌, value_or, select, is_blank, trim, ◌===◌, includes, distinct, without, negative,
}
use open_audit_model.Json.{Number, nat, neg_zero}
use open_audit_model.Json.Pointer.{split}
use open_audit_model.Privacy.Platform.{Url, Platform}

-- The levels of `createLogger`.
pub data LogLevel : Type 0 where
  debug info error silent : LogLevel

-- `ServerConfig`
pub record ServerConfig : Type 0 where
  pub host : String
  pub port : ℕ
  pub allowed_origins : List String
  pub allowed_hosts : List String
  pub trust_proxy : Bool
  pub max_request_bytes : ℕ
  pub max_event_bytes : ℕ
  pub max_chain_events : ℕ
  pub log_level : LogLevel
  pub shutdown_grace_ms : ℕ

-- `ConfigurationError`
pub data ConfigurationError : Type 0 where
  not_an_integer : String → ℕ → ℕ → ConfigurationError
  wildcard_origin relative_origin other_scheme unknown_log_level : ConfigurationError

-- A value, or what is thrown.
pub data Outcome (A : Type 0) : Type 0 where
  ok : A → Outcome A
  refused : ConfigurationError → Outcome A

infixl 5 ◌>>=◌
abbrev pub ◌>>=◌ : {A B : Type 0} → Outcome A → (A → Outcome B) → Outcome B
ok a >>= f = f a
refused e >>= f = refused e

-- `Env`
abbrev pub Env : Type 0
Env = String → Option String

-- The value of an integer that is not negative.
abbrev pub natural_of : Number → Option ℕ
natural_of (nat n) = some n
natural_of neg_zero = some 0
natural_of n = none

-- `Set.prototype.add`
abbrev pub add_to_set : List String → String → List String
add_to_set set s = if includes set s then set else set ++ s ∷ []

-- `DEFAULT_ORIGINS.join(",")`
abbrev pub default_origins : String
default_origins = "https://openauditmodel.org,https://www.openauditmodel.org"

abbrev pub is_unset : Option String → Bool
is_unset none = true
is_unset (some raw) = trim raw === ""

module _ (platform : Platform) (to_number : String → Number) where
  open platform use {parse_url, to_lower_case}

  abbrev pub in_range : String → ℕ → ℕ → Option ℕ → Outcome ℕ
  in_range name least most none = refused (not_an_integer name least most)
  in_range name least most (some n) =
      if ltb n least || ltb most n then refused (not_an_integer name least most) else ok n

  -- `readInteger`
  unfoldable pub read_integer : Env → String → ℕ → ℕ → ℕ → Outcome ℕ
  read_integer env name fallback least most =
      if is_unset (env name)
      then ok fallback
      else in_range name least most (natural_of (to_number (value_or (env name) "")))

  -- The entries of a list: trimmed, and without those that are empty.
  abbrev pub entries : String → List String
  entries raw = select (λ e. not (e === "")) (map trim (split 44 raw))

  abbrev pub add_origin : List String → Option Url → Outcome (List String)
  add_origin origins none = refused relative_origin
  add_origin origins (some url) =
      if not (url.protocol === "https:") && not (url.protocol === "http:")
      then refused other_scheme
      else ok (add_to_set origins url.origin)

  -- The loop of `readOrigins`.
  unfoldable pub collect_origins : List String → List String → Outcome (List String)
  collect_origins origins [] = ok origins
  collect_origins origins (e ∷ es) =
      let rest =
        add_origin origins (parse_url e) >>= (λ (more : List String). collect_origins more es) in
      if e === "*" then refused wildcard_origin else rest

  -- `readOrigins`
  unfoldable pub read_origins : Env → Outcome (List String)
  read_origins env =
      let raw = env "OAM_ALLOWED_ORIGINS" in
      collect_origins [] (entries (if is_unset raw then default_origins else value_or raw ""))

  -- `readHosts`
  unfoldable pub read_hosts : Env → List String
  read_hosts env =
      let raw = env "OAM_ALLOWED_HOSTS" in
      if is_unset raw
      then []
      else distinct ◌===◌ (
          select (λ e. not (e === ""))
            (map (λ e. to_lower_case (trim e)) (split 44 (value_or raw ""))))

  abbrev level_of : String → Outcome LogLevel
  level_of raw =
      if raw === "debug"
      then ok debug
      else if raw === "info"
      then ok info
      else if raw === "error"
      then ok error
      else if raw === "silent"
      then ok silent
      else refused unknown_log_level

  -- `readLogLevel`
  unfoldable pub read_log_level : Env → Outcome LogLevel
  read_log_level env = level_of (to_lower_case (trim (value_or (env "OAM_LOG_LEVEL") "info")))

  abbrev pub read_host : Env → String
  read_host env =
      let host = trim (value_or (env "HOST") "0.0.0.0") in if is_blank host then "0.0.0.0" else host

  -- `loadConfig`, in the order in which its parts are read
  unfoldable pub load_config : Env → Outcome ServerConfig
  load_config env = do
    port ← read_integer env "PORT" 3000 0 65535
    request ← read_integer env "OAM_MAX_REQUEST_BYTES" 1000000 1024 67108864
    event ← read_integer env "OAM_MAX_EVENT_BYTES" 256000 1024 request
    origins ← read_origins env
    chain ← read_integer env "OAM_MAX_CHAIN_EVENTS" 200 1 10000
    level ← read_log_level env
    grace ← read_integer env "OAM_SHUTDOWN_GRACE_MS" 10000 0 120000
    ok (record {
      host = read_host env;
      port = port;
      allowed_origins = origins;
      allowed_hosts = read_hosts env;
      trust_proxy = to_lower_case (trim (value_or (env "OAM_TRUST_PROXY") "")) === "true";
      max_request_bytes = request;
      max_event_bytes = event;
      max_chain_events = chain;
      log_level = level;
      shutdown_grace_ms = grace;
    })
