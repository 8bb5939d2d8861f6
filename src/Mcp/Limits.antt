-- ===== src/Mcp/Limits.antt =====
-- What the limits decide, and what the engines can rely on after them.
use open_audit_model.Common.{
  ℕ, ◌+◌, ◌≤◌, ◌≡◌, refl, ◌↔◌, inl, inr, Bool, true, false, ◌||◌, Option, none, some, arith, ltb,
  ltb→lt, ltb-false→le, Bool-cases,
}
use open_audit_model.Json.{
  Value, Items, Fields, arr, obj, nil, cons, end, field, null, undef, bool, num, str,
}
use open_audit_model.Json.Shape.{height, height_items, height_fields, IsJson}
use open_audit_model.Integrity.Canonicalize.{assert_json_value}
use open_audit_model.Integrity.Canonicalize.Accepts.{assert_json_value-eq-none_iff}
use open_audit_model.Mcp.OutputSafety.{
  depth_limit, serialized_bytes, walk, walk_items, walk_fields, exceeds_depth, check_bytes,
  assert_event_within_limits, EventLimits,
}

leaf_walk : (limit d : ℕ) → (ltb limit d ≡ false) ↔ (d + 0 ≤ limit)
leaf_walk limit d = (λ e. ground arith, λ l. ground arith)

pub or_iff : (a b : Bool) → ((a || b) ≡ false) ↔ ((a ≡ false) × (b ≡ false))
or_iff true b = (λ e. cc, λ p. cc p.0)
or_iff false b = (λ e. (refl, e), λ p. p.1)

mutual
  unfolding walk walk_items walk_fields

  walk_iff : (limit : ℕ) (v : Value) (d : ℕ) → (walk limit v d ≡ false) ↔ (d + height v ≤ limit)
  walk_iff limit null d = leaf_walk limit d
  walk_iff limit undef d = leaf_walk limit d
  walk_iff limit (bool b) d = leaf_walk limit d
  walk_iff limit (num n) d = leaf_walk limit d
  walk_iff limit (str s) d = leaf_walk limit d
  walk_iff limit (arr xs) d = elim (Bool-cases (ltb limit d)) [
    | inl over ↦ (λ e. cc (rw over at e), λ l. absurd (omega (arith, ltb→lt limit d over)))
    | inr under ↦ (
      λ e. ((items_iff limit xs d (ltb-false→le limit d under)).0 (rw under at e)),
      λ l. rw under ((items_iff limit xs d (ltb-false→le limit d under)).1 l),
    )
  ]
  walk_iff limit (obj fs) d = elim (Bool-cases (ltb limit d)) [
    | inl over ↦ (λ e. cc (rw over at e), λ l. absurd (omega (arith, ltb→lt limit d over)))
    | inr under ↦ (
      λ e. ((fields_iff limit fs d (ltb-false→le limit d under)).0 (rw under at e)),
      λ l. rw under ((fields_iff limit fs d (ltb-false→le limit d under)).1 l),
    )
  ]

  items_iff :
      (limit : ℕ) (xs : Items) (d : ℕ)
      → d ≤ limit
      → (walk_items limit xs d ≡ false) ↔ (d + height_items xs ≤ limit)
  items_iff limit nil d le = (λ e. omega arith, λ l. refl)
  items_iff limit (cons v xs) d le = (
    λ e.
        let (a, b) = (or_iff _ _).0 e in
        let p = (walk_iff limit v (d + 1)).0 a in
        let q = (items_iff limit xs d le).0 b in omega arith,
    λ l.
        (or_iff _ _).1
          ((walk_iff limit v (d + 1)).1 (omega arith), (items_iff limit xs d le).1 (omega arith)),
  )

  fields_iff :
      (limit : ℕ) (fs : Fields) (d : ℕ)
      → d ≤ limit
      → (walk_fields limit fs d ≡ false) ↔ (d + height_fields fs ≤ limit)
  fields_iff limit end d le = (λ e. omega arith, λ l. refl)
  fields_iff limit (field k v fs) d le = (
    λ e.
        let (a, b) = (or_iff _ _).0 e in
        let p = (walk_iff limit v (d + 1)).0 a in
        let q = (fields_iff limit fs d le).0 b in omega arith,
    λ l.
        (or_iff _ _).1
          ((walk_iff limit v (d + 1)).1 (omega arith), (fields_iff limit fs d le).1 (omega arith)),
  )

-- `exceedsDepth` answers no exactly for the values that are nested at most as deep as the limit.
pub exceeds_depth-height :
    (value : Value) (limit : ℕ) → (exceeds_depth value limit ≡ false) ↔ (height value ≤ limit)
unfolding exceeds_depth
exceeds_depth-height value limit = (
  λ e. omega (arith, (walk_iff limit value 0).0 e),
  λ l. (walk_iff limit value 0).1 (omega arith),
)

within_depth :
    (event : Value) (limits : EventLimits)
    → assert_event_within_limits event limits ≡ none
    → exceeds_depth event depth_limit ≡ false
unfolding assert_event_within_limits
within_depth (obj fs) limits e = go (serialized_bytes (obj fs)) e
  where
    go :
        (o : Option ℕ)
        → check_bytes (obj fs) limits o ≡ none
        → exceeds_depth (obj fs) depth_limit ≡ false
    go none e = cc
    go (some bytes) e = elim (Bool-cases (ltb limits.max_event_bytes bytes)) [
      | inl over ↦ cc (rw over at e)
      | inr under ↦ elim (Bool-cases (exceeds_depth (obj fs) depth_limit)) [
        | inr fine ↦ fine
        | inl deep ↦ cc (rw (under, deep) at e)
      ]
    ]
within_depth _ limits e = cc

-- The two limits on depth agree: an event that the server admits and that JSON can represent is never
-- refused by the canonicalization for its depth, nor for anything else that `assertJsonValue` tests.
pub assert_json_value-within_limits :
    (event : Value) (limits : EventLimits)
    → assert_event_within_limits event limits ≡ none
    → IsJson event
    → assert_json_value event "" 0 ≡ none
assert_json_value-within_limits event limits e j =
    (assert_json_value-eq-none_iff event "" 0).1
      (j, omega (arith, (exceeds_depth-height event 200).0 (within_depth event limits e)))
