-- ===== src/Mcp/Config/Bounds.antt =====
-- What a configuration that is accepted keeps to.
use open_audit_model.Common.{
  ℕ, ◌≤◌, String, ◌≡◌, refl, sym, ap, subst, ◌⊎◌, inl, inr, true, Option, none, some, List, [], ◌∷◌,
  arith, ltb, ltb-false→le, Bool-cases, value_or, All, All-append, ◌===◌, ===→≡, includes,
}
use open_audit_model.Json.{Number}
use open_audit_model.Privacy.Platform.{Url, Platform}
use open_audit_model.Mcp.Config.{
  ◌>>=◌, Env, natural_of, add_to_set, is_unset, in_range, read_integer, add_origin, collect_origins,
  read_log_level, read_origins, load_config, Outcome, ok, refused, ServerConfig,
}

>>=-eq-ok :
    {A B : Type 0} (m : Outcome A) (f : A → Outcome B) {b : B}
    → (m >>= f) ≡ ok b
    → (a : A) × (m ≡ ok a) × (f a ≡ ok b)
>>=-eq-ok (ok a) f e = (a, refl, e)
>>=-eq-ok (refused x) f e = cc

ok_inj : {A : Type 0} {a b : A} → ok a ≡ ok b → a ≡ b
ok_inj {A} {a} e = ap (value a) e
  where
    value : A → Outcome A → A
    value d (ok x) = x
    value d (refused x) = d

-- An origin of a URL that is http or https.
pub record IsWebOrigin (parse_url : String → Option Url) (origin : String) : Type 0 where
  pub entry : String
  pub url : Url
  pub parsed : parse_url entry ≡ some url
  pub scheme : (url.protocol ≡ "https:") ⊎ (url.protocol ≡ "http:")
  pub is_origin : url.origin ≡ origin

-- What holds of a configuration. The default of the largest event is not compared with the largest
-- request.
pub record IsValid (parse_url : String → Option Url) (env : Env) (c : ServerConfig) : Type 0 where
  pub port : c.port ≤ 65535
  pub request : (1024 ≤ c.max_request_bytes) × (c.max_request_bytes ≤ 67108864)
  pub event :
      ((1024 ≤ c.max_event_bytes) × (c.max_event_bytes ≤ c.max_request_bytes))
      ⊎ ((is_unset (env "OAM_MAX_EVENT_BYTES") ≡ true) × (c.max_event_bytes ≡ 256000))
  pub chain : (1 ≤ c.max_chain_events) × (c.max_chain_events ≤ 10000)
  pub grace : c.shutdown_grace_ms ≤ 120000
  pub origins : All (IsWebOrigin parse_url) c.allowed_origins

module _ (platform : Platform) (to_number : String → Number) where
  in_range_bounds :
      (name : String) (least most : ℕ) (o : Option ℕ) {n : ℕ}
      → in_range platform to_number name least most o ≡ ok n
      → (least ≤ n) × (n ≤ most)
  in_range_bounds name least most none e = cc
  in_range_bounds name least most (some v) {n} e = elim (Bool-cases (ltb v least)) [
    | inl low ↦ cc (rw low at e)
    | inr above ↦ elim (Bool-cases (ltb most v)) [
      | inl high ↦ cc (rw (above, high) at e)
      | inr below ↦
          let s : v ≡ n = ok_inj (rw (above, below) at e) in
          (omega (arith, ltb-false→le v least above), omega (arith, ltb-false→le most v below))
    ]
  ]

  read_integer_bounds :
      (env : Env) (name : String) (fallback least most : ℕ) {n : ℕ}
      → read_integer platform to_number env name fallback least most ≡ ok n
      → ((least ≤ n) × (n ≤ most)) ⊎ ((is_unset (env name) ≡ true) × (n ≡ fallback))
  unfolding read_integer
  read_integer_bounds env name fallback least most e = elim (Bool-cases (is_unset (env name))) [
    | inl unset ↦ inr (unset, sym (ok_inj (rw unset at e)))
    | inr given ↦ inl (
        in_range_bounds name least most (natural_of (to_number (value_or (env name) "")))
          (rw given at e))
  ]

  -- Within the bounds, where the default is.
  read_integer_within :
      (env : Env) (name : String) (fallback least most : ℕ) {n : ℕ}
      → least ≤ fallback
      → fallback ≤ most
      → read_integer platform to_number env name fallback least most ≡ ok n
      → (least ≤ n) × (n ≤ most)
  read_integer_within env name fallback least most l m e =
      elim (read_integer_bounds env name fallback least most e) [
        | inl b ↦ b
        | inr (u, s) ↦ (omega (arith, s), omega (arith, s))
      ]

  abbrev WebOrigins : List String → Type 0
  WebOrigins os = All (IsWebOrigin platform.parse_url) os

  add_to_set-WebOrigins :
      (os : List String) (o : String)
      → WebOrigins os
      → IsWebOrigin platform.parse_url o
      → WebOrigins (add_to_set os o)
  add_to_set-WebOrigins os o h w = elim (Bool-cases (includes os o)) [
    | inl old ↦ rw old h
    | inr new ↦ rw new (All-append (IsWebOrigin platform.parse_url) os (o ∷ []) h (w, tt))
  ]

  add_origin-WebOrigins :
      (os : List String) (entry : String) (o : Option Url) {result : List String}
      → platform.parse_url entry ≡ o
      → WebOrigins os
      → add_origin platform to_number os o ≡ ok result
      → WebOrigins result
  add_origin-WebOrigins os entry none p h e = cc
  add_origin-WebOrigins os entry (some url) p h e = elim (Bool-cases (url.protocol === "https:")) [
    | inl https ↦
        subst WebOrigins (ok_inj (rw https at e))
          (add_to_set-WebOrigins os url.origin h (web (inl (===→≡ _ _ https))))
    | inr not_https ↦ elim (Bool-cases (url.protocol === "http:")) [
      | inl http ↦
          subst WebOrigins (ok_inj (rw (not_https, http) at e))
            (add_to_set-WebOrigins os url.origin h (web (inr (===→≡ _ _ http))))
      | inr neither ↦ cc (rw (not_https, neither) at e)
    ]
  ]
    where
      web :
          ((url.protocol ≡ "https:") ⊎ (url.protocol ≡ "http:"))
          → IsWebOrigin platform.parse_url url.origin
      web s = record { entry = entry; url = url; parsed = p; scheme = s; is_origin = refl }

  collect_origins-WebOrigins :
      (os : List String) (es : List String) {result : List String}
      → WebOrigins os
      → collect_origins platform to_number os es ≡ ok result
      → WebOrigins result
  unfolding collect_origins
  collect_origins-WebOrigins os [] h e = subst WebOrigins (ok_inj e) h
  collect_origins-WebOrigins os (x ∷ es) h e = elim (Bool-cases (x === "*")) [
    | inl wild ↦ cc (rw wild at e)
    | inr plain ↦
        let (more, a, b) =
          >>=-eq-ok (add_origin platform to_number os (platform.parse_url x)) _ (rw plain at e) in
        collect_origins-WebOrigins more es
          (add_origin-WebOrigins os x (platform.parse_url x) refl h a) b
  ]

  -- A configuration that is accepted keeps its numbers in their ranges, and its origins are origins of
  -- URLs that are http or https; the largest event is at most the largest request, or the default that
  -- stands where none is set.
  pub load_config-IsValid :
      (env : Env) (c : ServerConfig)
      → load_config platform to_number env ≡ ok c
      → IsValid platform.parse_url env c
  unfolding load_config read_origins
  load_config-IsValid env c e =
      let (port, e1, r1) =
        >>=-eq-ok (read_integer platform to_number env "PORT" 3000 0 65535) _ e in
      let (request, e2, r2) =
        >>=-eq-ok
          (read_integer platform to_number env "OAM_MAX_REQUEST_BYTES" 1000000 1024 67108864) _
          r1 in
      let (event, e3, r3) =
        >>=-eq-ok (read_integer platform to_number env "OAM_MAX_EVENT_BYTES" 256000 1024 request) _
          r2 in
      let (origins, e4, r4) = >>=-eq-ok (read_origins platform to_number env) _ r3 in
      let (chain, e5, r5) =
        >>=-eq-ok (read_integer platform to_number env "OAM_MAX_CHAIN_EVENTS" 200 1 10000) _ r4 in
      let (level, e6, r6) = >>=-eq-ok (read_log_level platform to_number env) _ r5 in
      let (grace, e7, r7) =
        >>=-eq-ok (read_integer platform to_number env "OAM_SHUTDOWN_GRACE_MS" 10000 0 120000) _
          r6 in
      subst (IsValid platform.parse_url env) (ok_inj r7) (record {
        port = (read_integer_within env "PORT" 3000 0 65535 (omega arith) (omega arith) e1).1;
        request =
            read_integer_within env "OAM_MAX_REQUEST_BYTES" 1000000 1024 67108864 (omega arith)
              (omega arith) e2;
        event = read_integer_bounds env "OAM_MAX_EVENT_BYTES" 256000 1024 request e3;
        chain =
            read_integer_within env "OAM_MAX_CHAIN_EVENTS" 200 1 10000 (omega arith) (omega arith)
              e5;
        grace =
            (read_integer_within env "OAM_SHUTDOWN_GRACE_MS" 10000 0 120000 (omega arith)
              (omega arith) e7).1;
        origins = collect_origins-WebOrigins [] _ tt e4;
      })
