-- ===== src/Integrity/Canonicalize.antt =====
-- conformance/src/integrity/canonicalize.ts. The `canonicalize` package is a parameter.
pub mod Accepts
use open_audit_model.Common.{
  ℕ, ◌+◌, String, Bool, Option, none, some, [], ◌∷◌, ltb, if◌then◌else◌, includes, decimal, ◌+++◌,
}
use open_audit_model.Json.{
  Value, is_finite, null, undef, bool, num, str, arr, obj, Items, nil, cons, Fields, end, field,
}
use open_audit_model.Json.Pointer.{pointer_segment}

-- What is thrown, with the pointer that the message describes.
pub data CanonicalizationError : Type 0 where
  too_deep not_finite : String → CanonicalizationError
  not_representable : String → String → CanonicalizationError
  undefined_member : String → String → CanonicalizationError
  no_canonical_form : CanonicalizationError

-- `MAX_JSON_DEPTH`
abbrev pub max_json_depth : ℕ
max_json_depth = 200

-- A throw leaves the loop at once.
abbrev pub then_check {ℓ} : {E : Type ℓ} → Option E → Option E → Option E
then_check none next = next
then_check (some e) next = some e

unfoldable mutual
  -- `assertJsonValue`: the error that is thrown, if one is
  pub assert_json_value : Value → String → ℕ → Option CanonicalizationError
  assert_json_value null pointer depth =
      if ltb max_json_depth depth then some (too_deep pointer) else none
  assert_json_value undef pointer depth =
      if ltb max_json_depth depth
      then some (too_deep pointer)
      else some (not_representable pointer "undefined")
  assert_json_value (bool b) pointer depth =
      if ltb max_json_depth depth then some (too_deep pointer) else none
  assert_json_value (num n) pointer depth =
      if ltb max_json_depth depth
      then some (too_deep pointer)
      else if is_finite n
      then none
      else some (not_finite pointer)
  assert_json_value (str s) pointer depth =
      if ltb max_json_depth depth then some (too_deep pointer) else none
  assert_json_value (arr xs) pointer depth =
      let inside = assert_items xs 0 pointer (depth + 1) in
      if ltb max_json_depth depth then some (too_deep pointer) else inside
  assert_json_value (obj fs) pointer depth =
      let inside = assert_fields fs pointer (depth + 1) in
      if ltb max_json_depth depth then some (too_deep pointer) else inside

  -- the loop over `value.entries()`
  pub assert_items : Items → ℕ → String → ℕ → Option CanonicalizationError
  assert_items nil index pointer depth = none
  assert_items (cons v xs) index pointer depth =
      let rest = assert_items xs (index + 1) pointer depth in
      then_check (assert_json_value v (pointer +++ "/" +++ decimal index) depth) rest

  -- the loop over `Object.entries(value)`
  pub assert_fields : Fields → String → ℕ → Option CanonicalizationError
  assert_fields end pointer depth = none
  assert_fields (field key undef fs) pointer depth = some (undefined_member key pointer)
  assert_fields (field key v fs) pointer depth =
      let rest = assert_fields fs pointer depth in
      then_check (assert_json_value v (pointer +++ "/" +++ pointer_segment key) depth) rest

-- The result of a function that throws a `CanonicalizationError`.
pub data Canonical : Type 0 where
  canonical : String → Canonical
  throws : CanonicalizationError → Canonical

-- The package `canonicalize`: a text, or something that is no text.
abbrev pub Package : Type 0
Package = Value → Option String

-- `canonicalize`
unfoldable pub canonicalize : Package → Value → Canonical
canonicalize canonicalize_value value = elim (assert_json_value value "" 0) [
  | some e ↦ throws e
  | none ↦ elim (canonicalize_value value) [
    | none ↦ throws no_canonical_form
    | some text ↦ canonical text
  ]
]

-- `isSupportedCanonicalization`, over `SUPPORTED_CANONICALIZATIONS`
abbrev pub is_supported_canonicalization : String → Bool
is_supported_canonicalization identifier = includes ("RFC8785" ∷ []) identifier
