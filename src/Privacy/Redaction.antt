-- ===== src/Privacy/Redaction.antt =====
-- The paths that a report can carry.
pub mod Collected
pub mod Report
use open_audit_model.Common.{
  ℕ, ◌+◌, String, ◌≡◌, inl, inr, Bool, true, false, not, ◌&&◌, Option, none, some, List, [], ◌∷◌,
  ◌++◌, leb, Bool-cases, flat_map, All, All-append, includes, ◌+++◌,
}
use open_audit_model.Json.{
  Fields, field, end, Items, cons, nil, Value, undef, null, obj, arr, num, bool, str,
}
use open_audit_model.Json.Pointer.{replace_char, pointer_segment}
use open_audit_model.Privacy.Platform.{Platform}
use open_audit_model.Privacy.Rules.{
  authorization_header_value, private_key_material, url_userinfo, rule_by_id, RuleDefinition,
  PrivacyFinding,
}
use open_audit_model.Privacy.UrlAnalysis.{
  analyze_url, is_data_system_scheme, analyze_connection_string, ConnectionStringKind, credentialed,
  uncredentialed, UrlAnalysis,
}
use open_audit_model.Privacy.TokenPatterns.{
  matches_authorization_header, contains_private_key_material, match_known_token_format,
  is_high_entropy_token_candidate,
}
use open_audit_model.Privacy.RedactKey.{is_credential_shaped, redact_key}
use open_audit_model.Privacy.Traverse.{
  max_lint_depth, join_index, join_pointer, visits, visit_items, visit_fields, VisitedValue,
}
use open_audit_model.Privacy.LintEvent.{
  attributes_path, reference_path, finding_of, found, strong_findings, value_findings, Root,
  token_findings, connection_findings, url_findings, or_heuristic,
}

-- The locations that the linter names whatever the event holds.
abbrev pub fixed_paths : List String
fixed_paths =
    "/metadata" ∷ "/extensions" ∷ "/actor/attributes" ∷ "/subject/attributes"
    ∷ "/resource/attributes" ∷ "/change/before" ∷ "/change/after" ∷ "/event/summary"
    ∷ "/event/error/message" ∷ "/reason/text" ∷ "/reason/reference" ∷ "/request/route"
    ∷ "/authorization/reason" ∷ "/delegation/reason" ∷ []

-- A path made of fixed names, of indices, of names that are not shaped like a credential, and of the
-- mark that stands for one that is.
pub data IsSafePath (platform : Platform) : String → Type 0 where
  fixed : (p : String) → includes fixed_paths p ≡ true → IsSafePath platform p
  attributes : (n : ℕ) → IsSafePath platform (attributes_path n)
  reference : (n : ℕ) → IsSafePath platform (reference_path n)
  item : (p : String) (n : ℕ) → IsSafePath platform p → IsSafePath platform (join_index p n)
  named :
      (p k : String)
      → IsSafePath platform p
      → is_credential_shaped platform k ≡ false
      → IsSafePath platform (p +++ ("/" +++ pointer_segment k))
  hidden : (p : String) → IsSafePath platform p → IsSafePath platform (p +++ "/<redacted>")

module _ {ℓ κ} {A : Type ℓ} {B : Type κ} (Q : A → Type 0) (P : B → Type 0) (f : A → List B) where
  pub All-flat_map :
      ((x : A) → Q x → All P (f x)) → (xs : List A) → All Q xs → All P (flat_map f xs)
  All-flat_map h [] q = tt
  All-flat_map h (x ∷ xs) (p, q) = All-append P (f x) (flat_map f xs) (h x p) (All-flat_map h xs q)

module _ (platform : Platform) where
  abbrev Safe : String → Type 0
  Safe p = IsSafePath platform p

  -- A finding at a safe path.
  abbrev pub AtSafePath : PrivacyFinding → Type 0
  AtSafePath f = IsSafePath platform f.path

  abbrev pub VisitsSafe : VisitedValue → Type 0
  VisitsSafe v = IsSafePath platform v.path

  abbrev pub RootSafe : Root → Type 0
  RootSafe r = IsSafePath platform r.path

  join_pointer-IsSafePath : (p k : String) → Safe p → Safe (join_pointer platform p k)
  unfolding redact_key pointer_segment replace_char
  join_pointer-IsSafePath p k s = elim (Bool-cases (is_credential_shaped platform k)) [
    | inl shaped ↦ rw shaped (hidden p s)
    | inr plain ↦ rw plain (named p k s plain)
  ]

  mutual
    unfolding visits visit_items visit_fields

    pub visits-Safe :
        (v : Value) (p : String) (k : Option String) (d : ℕ)
        → Safe p
        → All VisitsSafe (visits platform v p k d)
    visits-Safe null p k d s = (s, tt)
    visits-Safe undef p k d s = (s, tt)
    visits-Safe (bool b) p k d s = (s, tt)
    visits-Safe (num n) p k d s = (s, tt)
    visits-Safe (str t) p k d s = (s, tt)
    visits-Safe (arr xs) p k d s = elim (Bool-cases (leb max_lint_depth d)) [
      | inl deep ↦ rw deep (s, tt)
      | inr shallow ↦ rw shallow (s, items-Safe xs p 0 d s)
    ]
    visits-Safe (obj fs) p k d s = elim (Bool-cases (leb max_lint_depth d)) [
      | inl deep ↦ rw deep (s, tt)
      | inr shallow ↦ rw shallow (s, fields-Safe fs p d s)
    ]

    items-Safe :
        (xs : Items) (p : String) (i d : ℕ)
        → Safe p
        → All VisitsSafe (visit_items platform xs p i d)
    items-Safe nil p i d s = tt
    items-Safe (cons v xs) p i d s =
        All-append VisitsSafe _ _ (visits-Safe v (join_index p i) none (d + 1) (item p i s))
          (items-Safe xs p (i + 1) d s)

    fields-Safe :
        (fs : Fields) (p : String) (d : ℕ) → Safe p → All VisitsSafe (visit_fields platform fs p d)
    fields-Safe end p d s = tt
    fields-Safe (field k v fs) p d s =
        All-append VisitsSafe _ _
          (visits-Safe v (join_pointer platform p k) (some k) (d + 1)
            (join_pointer-IsSafePath p k s))
          (fields-Safe fs p d s)

  pub found-Safe :
      (b : Bool) (rule : RuleDefinition) (p : String) → Safe p → All AtSafePath (found b rule p)
  found-Safe true rule p s = (s, tt)
  found-Safe false rule p s = tt

  pub join :
      (xs ys : List PrivacyFinding)
      → All AtSafePath xs
      → All AtSafePath ys
      → All AtSafePath (xs ++ ys)
  join xs ys a b = All-append AtSafePath xs ys a b

  strong_findings-Safe :
      (value p : String) → Safe p → All AtSafePath (strong_findings platform value p)
  unfolding strong_findings
  strong_findings-Safe value p s =
      join _ _ (found-Safe (matches_authorization_header value) authorization_header_value p s) (
        join _ _ (found-Safe (contains_private_key_material value) private_key_material p s) (
          join _ _ (token (match_known_token_format platform value)) (
            join _ _ (connection (analyze_connection_string platform value))
              (url (analyze_url platform value)))))
    where
      token : (o : Option String) → All AtSafePath (token_findings platform o p)
      token none = tt
      token (some id) = named_rule (rule_by_id id)
        where
          named_rule :
              (o : Option RuleDefinition)
              → All AtSafePath (elim o [ none ↦ [] | some rule ↦ finding_of rule p ∷ [] ])
          named_rule none = tt
          named_rule (some rule) = (s, tt)

      connection :
          (o : Option ConnectionStringKind) → All AtSafePath (connection_findings platform o p)
      connection none = tt
      connection (some credentialed) = (s, tt)
      connection (some uncredentialed) = (s, tt)

      url : (o : Option UrlAnalysis) → All AtSafePath (url_findings platform o p)
      url none = tt
      url (some u) =
          found-Safe (u.has_userinfo && not (is_data_system_scheme platform u.scheme)) url_userinfo
            p s

  pub value_findings-Safe :
      (value p : String) (k : Option String)
      → Safe p
      → All AtSafePath (value_findings platform value p k)
  unfolding value_findings
  value_findings-Safe value p k s =
      heuristic (strong_findings platform value p) (is_high_entropy_token_candidate platform value)
        (strong_findings-Safe value p s)
    where
      heuristic :
          (fs : List PrivacyFinding) (candidate : Bool)
          → All AtSafePath fs
          → All AtSafePath (or_heuristic platform fs candidate p k)
      heuristic [] true h = (s, tt)
      heuristic [] false h = tt
      heuristic (f ∷ fs) candidate h = h
