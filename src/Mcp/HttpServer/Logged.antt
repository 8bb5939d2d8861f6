-- ===== src/Mcp/HttpServer/Logged.antt =====
-- What is logged of a request.
use open_audit_model.Json.{Value}
use open_audit_model.Privacy.Platform.{Platform}
use open_audit_model.Common.{
  ℕ, String, ◌≡◌, refl, ◌⊎◌, inl, inr, Bool, true, Option, none, some, List, [], ◌∷◌, ◌==◌, select,
  All, includes, ◌++◌, Bool-cases, ◌===◌,
}
use open_audit_model.Mcp.HttpServer.{
  order, emits, admit, route_of, finish, handled_exchange, exchange_of, respond, Handled, handled,
  failed, mcp, internal_error, Admission, answered, passed, Request, Runtime, LogLine, path_of,
  logged_routes,
}
use open_audit_model.Mcp.Config.{LogLevel, ServerConfig}

abbrev is_info : LogLine → Bool
is_info l = order l.level == 20

-- The lines of the level info.
abbrev pub infos : List LogLine → List LogLine
infos ls = select is_info ls

-- The routes that a line may name.
abbrev pub fixed_routes : List String
fixed_routes = "/" ∷ "/health" ∷ "/mcp" ∷ "other" ∷ []

emits_error :
    (level : LogLevel) → emits level LogLevel.info ≡ true → emits level LogLevel.error ≡ true
emits_error LogLevel.debug h = refl
emits_error LogLevel.info h = refl
emits_error LogLevel.error h = refl
emits_error LogLevel.silent h = cc

includes-append :
    (xs ys : List String) (s : String) → includes xs s ≡ true → includes (xs ++ ys) s ≡ true
includes-append [] ys s h = cc
includes-append (x ∷ xs) ys s h = elim (Bool-cases (x === s)) [
  | inl e ↦ rw e refl
  | inr n ↦ rw n (includes-append xs ys s (rw n at h))
]

-- A handler that fails when it has sent its headers.
pub record FailedLate (runtime : Runtime) (request : Request) (admission : Admission)
    (line : LogLine) : Type 0 where
  pub body : Option Value
  pub sent : ℕ
  pub reached : admission ≡ passed body
  pub failed_after : runtime.handle request body ≡ failed (some sent)
  pub status : line.status_code ≡ some 500

pub record IsLogged (runtime : Runtime) (request : Request) (admission : Admission) (status : ℕ)
    (lines : List LogLine) : Type 0 where
  pub line : LogLine
  pub once : infos lines ≡ line ∷ []
  pub same_status : (line.status_code ≡ some status) ⊎ FailedLate runtime request admission line
  pub routes : All (λ (l : LogLine). includes fixed_routes l.route ≡ true) lines

module _ (platform : Platform) (runtime : Runtime) (config : ServerConfig) (request : Request) where
  route_of_fixed : includes fixed_routes (route_of platform runtime request) ≡ true
  route_of_fixed = elim (Bool-cases (includes (logged_routes platform runtime) (path_of request))) [
    | inl known ↦
        rw known
          (includes-append (logged_routes platform runtime) ("other" ∷ []) (path_of request) known)
    | inr other ↦ rw other refl
  ]

  abbrev shown : List LogLine → List LogLine
  shown ls = select (λ l. emits config.log_level l.level) ls

  handled-IsLogged :
      (admission : Admission) (body : Option Value) (h : Handled)
      → emits config.log_level LogLevel.info ≡ true
      → admission ≡ passed body
      → runtime.handle request body ≡ h
      → IsLogged runtime request admission
          (handled_exchange platform runtime (route_of platform runtime request) h).status
          (shown (handled_exchange platform runtime (route_of platform runtime request) h).lines)
  handled-IsLogged admission body (handled status) i p e = record {
    line = finish platform runtime (route_of platform runtime request) status mcp;
    once = rw i refl;
    same_status = inl refl;
    routes = rw i (route_of_fixed, tt);
  }
  handled-IsLogged admission body (failed none) i p e = record {
    line = finish platform runtime (route_of platform runtime request) 500 internal_error;
    once = rw (i, emits_error config.log_level i) refl;
    same_status = inl refl;
    routes = rw (i, emits_error config.log_level i) (route_of_fixed, (route_of_fixed, tt));
  }
  handled-IsLogged admission body (failed (some sent)) i p e = record {
    line = finish platform runtime (route_of platform runtime request) 500 internal_error;
    once = rw (i, emits_error config.log_level i) refl;
    same_status =
        inr (record { body = body; sent = sent; reached = p; failed_after = e; status = refl });
    routes = rw (i, emits_error config.log_level i) (route_of_fixed, (route_of_fixed, tt));
  }

  admission-IsLogged :
      (admission : Admission)
      → emits config.log_level LogLevel.info ≡ true
      → IsLogged runtime request admission
          (exchange_of platform runtime request admission).status
          (shown (exchange_of platform runtime request admission).lines)
  admission-IsLogged (answered status category) i = record {
    line = finish platform runtime (route_of platform runtime request) status category;
    once = rw i refl;
    same_status = inl refl;
    routes = rw i (route_of_fixed, tt);
  }
  admission-IsLogged (passed body) i =
      handled-IsLogged (passed body) body (runtime.handle request body) i refl refl

  -- Where the log level lets lines of the level info pass, every request is logged with exactly one such
  -- line; its status is that of the response, or 500 where the handler fails when it has sent its
  -- headers, and every line names one of four fixed routes, never the path that was asked for.
  pub respond-IsLogged :
      emits config.log_level LogLevel.info ≡ true
      → IsLogged runtime request
          (admit platform runtime config request)
          (respond platform runtime config request).status
          (respond platform runtime config request).lines
  unfolding respond
  respond-IsLogged i = admission-IsLogged (admit platform runtime config request) i
