-- ===== src/Mcp/OutputSafety.antt =====
-- mcp/src/output-safety.ts: the limits on events and on their number.
use open_audit_model.Common.{
  ℕ, ◌+◌, Bool, true, false, ◌||◌, Option, none, some, List, [], ◌∷◌, ltb, ◌==◌, if◌then◌else◌,
  length, utf8,
}
use open_audit_model.Json.{Value, Items, Fields, arr, obj, nil, cons, end, field, items}
use open_audit_model.Json.Stringify.{stringify}

-- `EventLimits`
pub record EventLimits : Type 0 where
  pub max_event_bytes : ℕ
  pub max_events_per_request : ℕ

-- `DEFAULT_EVENT_LIMITS`
abbrev pub default_event_limits : EventLimits
default_event_limits = record { max_event_bytes = 256000; max_events_per_request = 200 }

-- `MAX_JSON_DEPTH`
abbrev pub depth_limit : ℕ
depth_limit = 200

-- The codes of `InputLimitError`, with the index of the event that has the fault.
pub data InputLimitError : Type 0 where
  invalid_event unserializable_event event_too_large event_too_deep : InputLimitError
  invalid_events no_events too_many_events : InputLimitError
  at_event_index : ℕ → InputLimitError → InputLimitError

-- `serializedBytes`
abbrev pub serialized_bytes : Value → Option ℕ
serialized_bytes value = elim (stringify value) [
  | none ↦ none
  | some text ↦ some (length (utf8 text))
]

-- `walk` of `exceedsDepth`
unfoldable mutual
  pub walk : ℕ → Value → ℕ → Bool
  walk limit (arr xs) depth = if ltb limit depth then true else walk_items limit xs depth
  walk limit (obj fs) depth = if ltb limit depth then true else walk_fields limit fs depth
  walk limit v depth = ltb limit depth

  -- `node.some(…)`
  pub walk_items : ℕ → Items → ℕ → Bool
  walk_items limit nil depth = false
  walk_items limit (cons v xs) depth = walk limit v (depth + 1) || walk_items limit xs depth

  -- `Object.values(node).some(…)`
  pub walk_fields : ℕ → Fields → ℕ → Bool
  walk_fields limit end depth = false
  walk_fields limit (field k v fs) depth = walk limit v (depth + 1) || walk_fields limit fs depth

-- `exceedsDepth`
unfoldable pub exceeds_depth : Value → ℕ → Bool
exceeds_depth value limit = walk limit value 0

abbrev pub check_bytes : Value → EventLimits → Option ℕ → Option InputLimitError
check_bytes event limits none = some unserializable_event
check_bytes event limits (some bytes) =
    if ltb limits.max_event_bytes bytes
    then some event_too_large
    else if exceeds_depth event depth_limit
    then some event_too_deep
    else none

-- `assertEventWithinLimits`: what it throws
unfoldable pub assert_event_within_limits : Value → EventLimits → Option InputLimitError
assert_event_within_limits (obj fs) limits = check_bytes (obj fs) limits (serialized_bytes (obj fs))
assert_event_within_limits event limits = some invalid_event

-- The loop of `assertEventsWithinLimits`.
abbrev pub assert_each : List Value → ℕ → EventLimits → Option InputLimitError
assert_each [] index limits = none
assert_each (event ∷ events) index limits =
    let rest = assert_each events (index + 1) limits in
    elim (assert_event_within_limits event limits) [
      | some e ↦ some (at_event_index index e)
      | none ↦ rest
    ]

abbrev pub assert_count : List Value → EventLimits → Option InputLimitError
assert_count events limits =
    if length events == 0
    then some no_events
    else if ltb limits.max_events_per_request (length events)
    then some too_many_events
    else assert_each events 0 limits

-- `assertEventsWithinLimits`
unfoldable pub assert_events_within_limits : Value → EventLimits → Option InputLimitError
assert_events_within_limits (arr xs) limits = assert_count (items xs) limits
assert_events_within_limits events limits = some invalid_events
