-- ===== src/Tests/Inputs.antt =====
-- The limits on inputs, and the versions that events declare.
use open_audit_model.Common.{◌≤◌, ◌≡◌, refl, ◌↔◌, true, false, none, [], ◌∷◌, utf8, arith}
use open_audit_model.Json.{Value, field, end, obj, str}
use open_audit_model.Json.Shape.{height}
use open_audit_model.Json.Stringify.{escape, print_number, print_value, print_items, print_members}
use open_audit_model.Integrity.Canonicalize.{assert_json_value}
use open_audit_model.Integrity.Event.{verify_event_integrity}
use open_audit_model.Mcp.OutputSafety.{
  default_event_limits, walk, walk_items, walk_fields, exceeds_depth, assert_event_within_limits,
}
use open_audit_model.Mcp.Limits.{exceeds_depth-height, assert_json_value-within_limits}
use open_audit_model.Versions.{
  digits_to_end, after_digits, has_version_form, was_not_evaluated, not_evaluated,
  versioned_validator,
}
use open_audit_model.Versions.Dispatch.{versioned_validator-IsUnsupported, IsUnsupported}
use open_audit_model.Privacy.SizeAnalysis.{
  size_thresholds, measure, measure_items, measure_fields, profile_value, exceeded_signals,
}
use open_audit_model.Privacy.Depth.{exceeded_signals-height}
use open_audit_model.Tests.{engine, accepts_all}
use open_audit_model.Tests.Events.{sealed_event}

within_limits : assert_event_within_limits sealed_event default_event_limits ≡ none
unfolding assert_event_within_limits exceeds_depth walk walk_items walk_fields print_value
    print_items print_members print_number escape utf8
within_limits = refl

assert_json_value-within_limits_example : assert_json_value sealed_event "" 0 ≡ none
assert_json_value-within_limits_example =
    assert_json_value-within_limits sealed_event default_event_limits within_limits
      (tt, ((tt, (tt, (tt, tt))), tt))

exceeds_depth-height_example : (exceeds_depth sealed_event 1 ≡ false) ↔ (height sealed_event ≤ 1)
exceeds_depth-height_example = exceeds_depth-height sealed_event 1

abbrev future_event : Value
future_event = obj (field "specVersion" (str "2.0") end)

future-IsUnsupported : IsUnsupported future_event "2.0"
unfolding has_version_form after_digits digits_to_end
future-IsUnsupported = record {
  members = field "specVersion" (str "2.0") end;
  is_object = refl;
  declares = refl;
  well_formed = refl;
  not_supported = refl;
}

versioned_validator-IsUnsupported_example :
    (versioned_validator (λ v. accepts_all) future_event ≡ not_evaluated "2.0" ∷ [])
    × (was_not_evaluated (versioned_validator (λ v. accepts_all) future_event) ≡ true)
    × ((verify_event_integrity engine future_event "f"
          (versioned_validator (λ v. accepts_all))
          true
          none).verified
        ≡ false)
versioned_validator-IsUnsupported_example =
    versioned_validator-IsUnsupported (λ v. accepts_all) engine future_event "2.0" "f" none
      future-IsUnsupported

sealed_event-small : exceeded_signals (profile_value sealed_event) size_thresholds ≡ []
unfolding exceeded_signals profile_value measure measure_items measure_fields print_value
    print_items print_members print_number escape utf8
sealed_event-small = refl

exceeded_signals-height_example : height sealed_event ≤ 6
exceeded_signals-height_example =
    exceeded_signals-height sealed_event size_thresholds (omega arith) sealed_event-small
