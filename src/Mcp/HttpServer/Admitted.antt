-- ===== src/Mcp/HttpServer/Admitted.antt =====
-- What reaches the handler of the protocol.
use open_audit_model.Common.{
  ℕ, ◌+◌, ◌≤◌, ◌≡◌, refl, ◌∙◌, ◌≢◌, ◌⊎◌, inl, inr, true, false, Option, none, some, List, [], ◌∷◌,
  ◌++◌, arith, ltb, if◌then◌else◌, ltb→lt, lt→ltb, ltb-false→le, le→not_ltb, Bool-cases, length,
  length-append, flat_map, ◌===◌, append_nil, append_assoc, sym, ap, subst, Option-cases, ◌&&◌,
  ===→≡,
}
use open_audit_model.Json.{Items, Value, arr, null, obj, num, bool, str, undef}
use open_audit_model.Integrity.Types.{Bytes}
use open_audit_model.Privacy.Platform.{Platform}
use open_audit_model.Mcp.Config.{ServerConfig}
use open_audit_model.Mcp.HttpServer.{
  is_origin_allowed, is_host_allowed, read_body, has_proto, is_listen, path_of, after_parse, passed,
  Request, Runtime, parse_body, with_body, mcp_route, admit, listen_refused, Admission, answered,
}

abbrev pub body_of : List Bytes → Bytes
body_of chunks = flat_map (λ c. c) chunks

-- The body is read whole, or refused when it is longer than the limit.
read_body_lem :
    (limit : ℕ) (cs : List Bytes) (kept : Bytes) (total : ℕ)
    → total ≤ limit
    → read_body limit cs kept total
      ≡ (if ltb limit (total + length (body_of cs)) then none else some (kept ++ body_of cs))
unfolding read_body
read_body_lem limit [] kept total h =
    rw (le→not_ltb limit (total + 0) (omega arith), append_nil kept) refl
read_body_lem limit (c ∷ cs) kept total h = elim (Bool-cases (ltb limit (total + length c))) [
  | inl over ↦
      rw
        (
          over,
          lt→ltb limit (total + length (c ++ body_of cs))
              (omega (arith, ltb→lt _ _ over, length-append {0} c (body_of cs))),
        )
        refl
  | inr within ↦
      let e : (total + length c) + length (body_of cs) ≡ total + length (c ++ body_of cs) =
        omega (arith, length-append {0} c (body_of cs)) in
      rw within (
        read_body_lem limit cs (kept ++ c) (total + length c) (ltb-false→le _ _ within)
        ∙ rw (e, append_assoc kept c (body_of cs)) refl)
]

-- A body that is passed on: no member of it is named `__proto__`, and it is neither a batch nor a
-- request to listen.
pub record IsAccepted (runtime : Runtime) (request : Request) (v : Value) : Type 0 where
  pub parsed : runtime.parse_json (runtime.decode (body_of request.chunks)) ≡ some v
  pub plain : has_proto v ≡ false
  pub not_listen : is_listen v ≡ false
  pub not_batch : (xs : Items) → v ≢ arr xs

abbrev pub BodyAccepted : Runtime → Request → Option Value → Type 0
BodyAccepted runtime request none =
    ((request.method === "POST") ≡ false) ⊎ (body_of request.chunks ≡ [])
BodyAccepted runtime request (some v) = IsAccepted runtime request v

-- What is known of a request that reaches the handler.
pub record IsAdmitted (platform : Platform) (runtime : Runtime) (config : ServerConfig)
    (request : Request) (body : Option Value) : Type 0 where
  pub host : is_host_allowed platform request config ≡ true
  pub origin : is_origin_allowed platform request.origin config.allowed_origins ≡ true
  pub path : path_of request ≡ "/mcp"
  pub bounded :
      (request.method === "POST") ≡ true
      → length (body_of request.chunks) ≤ config.max_request_bytes
  pub accepted : BodyAccepted runtime request body

abbrev body_in : Admission → Option Value
body_in (passed body) = body
body_in (answered status category) = none

passed_inj : {a b : Option Value} → passed a ≡ passed b → a ≡ b
passed_inj e = ap body_in e

module _ (platform : Platform) (runtime : Runtime) (config : ServerConfig) (request : Request) where
  listened :
      (v : Value) {body : Option Value}
      → runtime.parse_json (runtime.decode (body_of request.chunks)) ≡ some v
      → has_proto v ≡ false
      → ((xs : Items) → v ≢ arr xs)
      → (if is_listen v then answered 200 listen_refused else passed (some v)) ≡ passed body
      → BodyAccepted runtime request body
  listened v p h not_batch e = elim (Bool-cases (is_listen v)) [
    | inl l ↦ cc (rw l at e)
    | inr n ↦
        subst (BodyAccepted runtime request) (passed_inj (rw n at e))
          (record { parsed = p; plain = h; not_listen = n; not_batch = not_batch })
  ]

  after_parse-IsAccepted :
      (v : Value) {body : Option Value}
      → runtime.parse_json (runtime.decode (body_of request.chunks)) ≡ some v
      → has_proto v ≡ false
      → after_parse v ≡ passed body
      → BodyAccepted runtime request body
  after_parse-IsAccepted (arr xs) p h e = cc
  after_parse-IsAccepted undef p h e = listened undef p h (λ xs q. cc) e
  after_parse-IsAccepted null p h e = listened null p h (λ xs q. cc) e
  after_parse-IsAccepted (bool b) p h e = listened (bool b) p h (λ xs q. cc) e
  after_parse-IsAccepted (num n) p h e = listened (num n) p h (λ xs q. cc) e
  after_parse-IsAccepted (str s) p h e = listened (str s) p h (λ xs q. cc) e
  after_parse-IsAccepted (obj fs) p h e = listened (obj fs) p h (λ xs q. cc) e

  parse_body-IsAccepted :
      (bytes : Bytes) {body : Option Value}
      → bytes ≡ body_of request.chunks
      → parse_body platform runtime bytes ≡ passed body
      → BodyAccepted runtime request body
  parse_body-IsAccepted bytes b e =
      elim (Option-cases (runtime.parse_json (runtime.decode bytes))) [
        | inl bad ↦ cc (rw (parse_body, bad) at e)
        | inr (v, p) ↦ elim (Bool-cases (has_proto v)) [
          | inl proto ↦ cc (rw (parse_body, p, proto) at e)
          | inr plain ↦
              after_parse-IsAccepted v
                (subst (λ bs. runtime.parse_json (runtime.decode bs) ≡ some v) b p) plain
                (rw (parse_body, p, plain) at e)
        ]
      ]

  with_body-IsAccepted :
      (bytes : Bytes) {body : Option Value}
      → bytes ≡ body_of request.chunks
      → with_body platform runtime (some bytes) ≡ passed body
      → BodyAccepted runtime request body
  with_body-IsAccepted [] b e = subst (BodyAccepted runtime request) (passed_inj e) (inr (sym b))
  with_body-IsAccepted (c ∷ cs) b e = parse_body-IsAccepted (c ∷ cs) b e

  -- The body is within the limit, and what is passed on is accepted.
  post_bounded :
      {body : Option Value}
      → with_body platform runtime (read_body config.max_request_bytes request.chunks [] 0)
        ≡ passed body
      → (length (body_of request.chunks) ≤ config.max_request_bytes)
        × BodyAccepted runtime request body
  post_bounded e =
      elim (Bool-cases (ltb config.max_request_bytes (length (body_of request.chunks)))) [
        | inl over ↦ cc (rw (read_all, over) at e)
        | inr within ↦ (
          ltb-false→le _ _ within,
          with_body-IsAccepted (body_of request.chunks) refl (rw (read_all, within) at e),
        )
      ]
    where
      read_all : read_body config.max_request_bytes request.chunks [] 0 ≡ (
          if ltb config.max_request_bytes (length (body_of request.chunks))
          then none
          else some (body_of request.chunks))
      read_all =
          subst
            (λ n.
              read_body config.max_request_bytes request.chunks [] 0
              ≡ (if ltb config.max_request_bytes n then none else some (body_of request.chunks)))
            (omega arith) (read_body_lem config.max_request_bytes request.chunks [] 0 (omega arith))

  mcp_route-IsAdmitted :
      {body : Option Value}
      → is_host_allowed platform request config ≡ true
      → is_origin_allowed platform request.origin config.allowed_origins ≡ true
      → path_of request ≡ "/mcp"
      → mcp_route platform runtime config request ≡ passed body
      → IsAdmitted platform runtime config request body
  mcp_route-IsAdmitted h o p e = elim (Bool-cases (request.method === "POST")) [
    | inl post ↦
        let (b, a) = post_bounded (rw post at e) in
        record { host = h; origin = o; path = p; bounded = λ m. b; accepted = a }
    | inr other ↦ record {
      host = h;
      origin = o;
      path = p;
      bounded = λ m. cc;
      accepted = subst (BodyAccepted runtime request) (passed_inj (rw other at e)) (inl other);
    }
  ]

  -- A request reaches the handler only when its host and its origin are allowed and its path is `/mcp`;
  -- where it is a POST, its body is at most as long as the limit, and the handler gets a body only when
  -- that is what the bytes parse to, it has no member named `__proto__` at any depth, and it is neither
  -- an array nor a request to listen; it gets none only when the request is no POST or its body is
  -- empty.
  pub admit-IsAdmitted :
      (body : Option Value)
      → admit platform runtime config request ≡ passed body
      → IsAdmitted platform runtime config request body
  unfolding admit
  admit-IsAdmitted body e = elim (Bool-cases (is_host_allowed platform request config)) [
    | inr h ↦ cc (rw h at e)
    | inl h ↦ elim (Bool-cases (is_origin_allowed platform request.origin config.allowed_origins)) [
      | inr o ↦ cc (rw (h, o) at e)
      | inl o ↦ elim (Bool-cases (path_of request === "/health" && request.method === "GET")) [
        | inl health ↦ cc (rw (h, o, health) at e)
        | inr no_health ↦ elim (Bool-cases (path_of request === "/" && request.method === "GET")) [
          | inl root ↦ cc (rw (h, o, no_health, root) at e)
          | inr no_root ↦ elim (Bool-cases (path_of request === "/mcp")) [
            | inr unknown ↦ cc (rw (h, o, no_health, no_root, unknown) at e)
            | inl m ↦ mcp_route-IsAdmitted h o (===→≡ _ _ m) (rw (h, o, no_health, no_root, m) at e)
          ]
        ]
      ]
    ]
  ]
