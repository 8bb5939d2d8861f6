-- ===== src/Privacy/SizeAnalysis.antt =====
-- conformance/src/privacy/size-analysis.ts: the measures of a value and the signals that they exceed
-- a threshold. The wording of the signals is not modelled.
use open_audit_model.Common.{
  ℕ, ◌+◌, max, none, some, List, [], ◌∷◌, ◌++◌, ltb, leb, if◌then◌else◌, length, utf16_length, utf8,
}
use open_audit_model.Json.{count_items, Fields, field, end, Items, cons, nil, Value, obj, arr, str}
use open_audit_model.Json.Stringify.{stringify}

-- `SizeThresholds`
pub record SizeThresholds : Type 0 where
  pub serialized_bytes : ℕ
  pub total_properties : ℕ
  pub max_depth : ℕ
  pub max_array_length : ℕ
  pub longest_string : ℕ

-- `SIZE_THRESHOLDS`
abbrev pub size_thresholds : SizeThresholds
size_thresholds = record {
  serialized_bytes = 4096;
  total_properties = 50;
  max_depth = 6;
  max_array_length = 100;
  longest_string = 2048;
}

-- `MAX_PROFILE_DEPTH`
abbrev pub max_profile_depth : ℕ
max_profile_depth = 64

-- The variables that `walk` of `profileValue` assigns.
pub record Measures : Type 0 where
  pub total_properties : ℕ
  pub max_depth : ℕ
  pub max_array_length : ℕ
  pub longest_string : ℕ

-- `SizeProfile`
pub record SizeProfile : Type 0 where
  pub serialized_bytes : ℕ
  pub measures : Measures

abbrev pub at_depth : ℕ → Measures → Measures
at_depth depth c = record {
  total_properties = c.total_properties;
  max_depth = if ltb c.max_depth depth then depth else c.max_depth;
  max_array_length = c.max_array_length;
  longest_string = c.longest_string;
}

abbrev pub with_string : ℕ → Measures → Measures
with_string n c = record {
  total_properties = c.total_properties;
  max_depth = c.max_depth;
  max_array_length = c.max_array_length;
  longest_string = max c.longest_string n;
}

abbrev pub with_array : ℕ → Measures → Measures
with_array n c = record {
  total_properties = c.total_properties;
  max_depth = c.max_depth;
  max_array_length = max c.max_array_length n;
  longest_string = c.longest_string;
}

abbrev pub with_property : Measures → Measures
with_property c = record {
  total_properties = c.total_properties + 1;
  max_depth = c.max_depth;
  max_array_length = c.max_array_length;
  longest_string = c.longest_string;
}

-- `walk` of `profileValue`
unfoldable mutual
  pub measure : Value → ℕ → Measures → Measures
  measure (str s) depth c =
      if leb max_profile_depth depth
      then at_depth depth c
      else with_string (utf16_length s) (at_depth depth c)
  measure (arr xs) depth c =
      let rest = measure_items xs depth (with_array (count_items xs) (at_depth depth c)) in
      if leb max_profile_depth depth then at_depth depth c else rest
  measure (obj fs) depth c =
      let rest = measure_fields fs depth (at_depth depth c) in
      if leb max_profile_depth depth then at_depth depth c else rest
  measure v depth c = at_depth depth c

  pub measure_items : Items → ℕ → Measures → Measures
  measure_items nil depth c = c
  measure_items (cons v xs) depth c = measure_items xs depth (measure v (depth + 1) c)

  pub measure_fields : Fields → ℕ → Measures → Measures
  measure_fields end depth c = c
  measure_fields (field k v fs) depth c =
      measure_fields fs depth (measure v (depth + 1) (with_property c))

abbrev pub no_measures : Measures
no_measures = record {
  total_properties = 0;
  max_depth = 0;
  max_array_length = 0;
  longest_string = 0;
}

-- `profileValue`
unfoldable pub profile_value : Value → SizeProfile
profile_value value = record {
  serialized_bytes = elim (stringify value) [ none ↦ 0 | some text ↦ length (utf8 text) ];
  measures = measure value 0 no_measures;
}

-- What `exceededSignals` reports, with the measure and its threshold.
pub data Signal : Type 0 where
  serialized_size properties nesting_depth array_length string_length : ℕ → ℕ → Signal

abbrev pub signal_over : (ℕ → ℕ → Signal) → ℕ → ℕ → List Signal
signal_over signal measured most = if ltb most measured then signal measured most ∷ [] else []

-- `exceededSignals`
unfoldable pub exceeded_signals : SizeProfile → SizeThresholds → List Signal
exceeded_signals profile thresholds =
    signal_over serialized_size profile.serialized_bytes thresholds.serialized_bytes
    ++ (signal_over properties profile.measures.total_properties thresholds.total_properties
        ++ (signal_over nesting_depth profile.measures.max_depth thresholds.max_depth
            ++ (signal_over array_length profile.measures.max_array_length
                  thresholds.max_array_length
                ++ signal_over string_length profile.measures.longest_string
                    thresholds.longest_string)))
