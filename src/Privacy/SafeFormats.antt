-- ===== src/Privacy/SafeFormats.antt =====
-- conformance/src/privacy/safe-formats.ts. The regular expressions are written as matchers.
use open_audit_model.Common.{
  ℕ, zero, suc, ◌+◌, String, Bool, true, false, not, ◌&&◌, ◌||◌, List, [], ◌∷◌, ◌++◌, leb, ◌==◌,
  if◌then◌else◌, is_blank, trim, run_of, matches_classes, times, contains, is_digit_char,
  is_lower_char, is_upper_char, includes,
}
use Prim.Native.Char.{code}

abbrev pub lower_hex : ℕ → Bool
lower_hex c = is_digit_char c || (leb 97 c && leb c 102)

abbrev pub any_hex : ℕ → Bool
any_hex c = lower_hex c || (leb 65 c && leb c 70)

abbrev dash : ℕ → Bool
dash c = c == 45

-- `UUID`
abbrev pub is_uuid : String → Bool
is_uuid value =
    matches_classes
      (times 8 any_hex
        ++ (dash ∷ times 4 any_hex)
        ++ (dash ∷ times 4 any_hex)
        ++ (dash ∷ times 4 any_hex)
        ++ (dash ∷ times 12 any_hex))
      value

-- `ULID`: no I, L, O or U
abbrev pub is_ulid : String → Bool
is_ulid value =
    run_of
      (λ c. is_digit_char c || (is_upper_char c && not (c == 73 || c == 76 || c == 79 || c == 85)))
      26 26 value

-- `TRACE_ID`
abbrev pub is_trace_id : String → Bool
is_trace_id value = run_of lower_hex 32 32 value

-- `SPAN_ID`
abbrev pub is_span_id : String → Bool
is_span_id value = run_of lower_hex 16 16 value

-- `HEX_DIGEST` of this file
abbrev pub is_digest_format : String → Bool
is_digest_format value =
    run_of lower_hex 64 64 value || run_of lower_hex 96 96 value || run_of lower_hex 128 128 value

-- `(?:[Zz]|[+-]\d{2}:\d{2})$`
abbrev zone : String → Bool
zone s =
    matches_classes ((λ c. c == 90 || c == 122) ∷ []) s
    || matches_classes
        ((λ c. c == 43 || c == 45)
          ∷ is_digit_char
          ∷ is_digit_char
          ∷ (λ c. c == 58)
          ∷ is_digit_char
          ∷ is_digit_char
          ∷ [])
        s

-- `\d{0,most}`, then the zone
abbrev digits_zone : ℕ → String → Bool
digits_zone most String.[] = false
digits_zone zero s = zone s
digits_zone (suc most) (String.◌∷◌ c s) =
    if is_digit_char (code c) then digits_zone most s else zone (String.◌∷◌ c s)

-- `(?:\.\d{1,9})?`, then the zone
abbrev fraction_zone : String → Bool
fraction_zone (String.◌∷◌ c (String.◌∷◌ d s)) =
    if code c == 46
    then is_digit_char (code d) && digits_zone 8 s
    else zone (String.◌∷◌ c (String.◌∷◌ d s))
fraction_zone s = zone s

-- The classes that come first, and then what the rest must be.
abbrev classes_then : List (ℕ → Bool) → (String → Bool) → String → Bool
classes_then [] rest s = rest s
classes_then (p ∷ ps) rest String.[] = false
classes_then (p ∷ ps) rest (String.◌∷◌ c s) = p (code c) && classes_then ps rest s

-- `RFC3339`
abbrev pub is_rfc3339_timestamp : String → Bool
is_rfc3339_timestamp value =
    classes_then
      (times 4 is_digit_char
        ++ (dash ∷ times 2 is_digit_char)
        ++ (dash ∷ times 2 is_digit_char)
        ++ ((λ c. c == 84 || c == 116 || c == 32) ∷ times 2 is_digit_char)
        ++ ((λ c. c == 58) ∷ times 2 is_digit_char)
        ++ ((λ c. c == 58) ∷ times 2 is_digit_char))
      fraction_zone value

-- `NUMERIC_ID`
abbrev pub is_numeric_identifier : String → Bool
is_numeric_identifier value = run_of is_digit_char 1 32 value

abbrev word_char : ℕ → Bool
word_char c = is_digit_char c || is_lower_char c

abbrev separator : ℕ → Bool
separator c = c == 46 || c == 47 || c == 95 || c == 45

-- The rest of `PLAIN_IDENTIFIER` after `groups` groups; `open` is that the last group has no
-- character yet.
abbrev identifier_rest : ℕ → Bool → String → Bool
identifier_rest groups opened String.[] = not opened && leb 1 groups && leb groups 32
identifier_rest groups opened (String.◌∷◌ c s) =
    let next = identifier_rest (groups + 1) true s in
    let same = identifier_rest groups false s in
    if word_char (code c) then same else if separator (code c) && not opened then next else false

-- `PLAIN_IDENTIFIER`
abbrev pub is_plain_identifier : String → Bool
is_plain_identifier String.[] = false
is_plain_identifier (String.◌∷◌ c s) = is_lower_char (code c) && identifier_rest 0 false s

-- `REDACTION_PLACEHOLDERS`
abbrev pub redaction_placeholders : List String
redaction_placeholders =
    "[redacted]" ∷ "<redacted>" ∷ "redacted" ∷ "[masked]" ∷ "<masked>" ∷ "masked" ∷ "[removed]"
    ∷ "<removed>" ∷ "removed" ∷ "[omitted]" ∷ "<omitted>" ∷ "omitted" ∷ "[hidden]" ∷ "n/a" ∷ "null"
    ∷ "none" ∷ "-" ∷ "--" ∷ []

-- `MASK_CHARACTERS`
abbrev is_mask_char : ℕ → Bool
is_mask_char c = c == 42 || c == 0x2022 || c == 0xb7

-- `value.includes("://")`
abbrev pub looks_like_locator : String → Bool
looks_like_locator value = contains "://" value

module _ (to_lower_case : String → String) where
  -- `isRedactionPlaceholder`
  unfoldable pub is_redaction_placeholder : String → Bool
  is_redaction_placeholder value =
      let trimmed = trim value in
      is_blank trimmed
      || includes redaction_placeholders (to_lower_case trimmed)
      || run_of is_mask_char 1 64 trimmed

  -- `isKnownSafeFormat`
  unfoldable pub is_known_safe_format : String → Bool
  is_known_safe_format value =
      is_uuid value
      || is_ulid value
      || is_trace_id value
      || is_span_id value
      || is_digest_format value
      || is_rfc3339_timestamp value
      || is_numeric_identifier value
      || is_plain_identifier value
      || looks_like_locator value
      || is_redaction_placeholder value
