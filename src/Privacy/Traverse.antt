-- ===== src/Privacy/Traverse.antt =====
-- conformance/src/privacy/traverse.ts: the values of a document, in the order in which they are
-- visited.
use open_audit_model.Common.{
  ℕ, ◌+◌, String, Option, none, some, List, [], ◌∷◌, ◌++◌, leb, if◌then◌else◌, decimal, ◌+++◌,
}
use open_audit_model.Json.{member, Fields, field, end, Items, cons, nil, Value, undef, obj, arr}
use open_audit_model.Json.Pointer.{pointer_segment}
use open_audit_model.Privacy.Platform.{Platform}
use open_audit_model.Privacy.RedactKey.{redact_key}

-- `MAX_LINT_DEPTH`
abbrev pub max_lint_depth : ℕ
max_lint_depth = 64

-- `VisitedValue`
pub record VisitedValue : Type 0 where
  pub path : String
  pub key : Option String
  pub value : Value
  pub depth : ℕ

-- `readPath`
unfoldable pub read_path : Value → List String → Value
read_path root [] = root
read_path (obj fs) (p ∷ ps) = read_path (member fs p) ps
read_path root (p ∷ ps) = undef

-- `joinPointer` with an index
abbrev pub join_index : String → ℕ → String
join_index base index = base +++ ("/" +++ decimal index)

module _ (platform : Platform) where
  -- `joinPointer` with a property name
  abbrev pub join_pointer : String → String → String
  join_pointer base segment = base +++ ("/" +++ pointer_segment (redact_key platform segment))

  abbrev visit : String → Option String → Value → ℕ → VisitedValue
  visit path key value depth = record { path = path; key = key; value = value; depth = depth }

  -- `walk` of `traverse`
  unfoldable mutual
    pub visits : Value → String → Option String → ℕ → List VisitedValue
    visits (arr xs) path key depth =
        let rest = visit_items xs path 0 depth in
        visit path key (arr xs) depth ∷ (if leb max_lint_depth depth then [] else rest)
    visits (obj fs) path key depth =
        let rest = visit_fields fs path depth in
        visit path key (obj fs) depth ∷ (if leb max_lint_depth depth then [] else rest)
    visits v path key depth = visit path key v depth ∷ []

    pub visit_items : Items → String → ℕ → ℕ → List VisitedValue
    visit_items nil path index depth = []
    visit_items (cons v xs) path index depth =
        visits v (join_index path index) none (depth + 1) ++ visit_items xs path (index + 1) depth

    pub visit_fields : Fields → String → ℕ → List VisitedValue
    visit_fields end path depth = []
    visit_fields (field k v fs) path depth =
        visits v (join_pointer path k) (some k) (depth + 1) ++ visit_fields fs path depth

  -- `traverse`
  unfoldable pub traverse : Value → String → List VisitedValue
  traverse root base_path = visits root base_path none 0
