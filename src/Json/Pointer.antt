-- ===== src/Json/Pointer.antt =====
-- JSON Pointers (RFC 6901): the escaping of conformance/src/privacy/traverse.ts, which
-- conformance/src/integrity/canonicalize.ts and conformance/src/format-errors.ts repeat, and the
-- resolution of conformance/src/profiles/resolve-pointer.ts.
pub mod Escaping
use Prim.Native.Char.{Char, code}
use open_audit_model.Json.{
  Value, is_integer, items, own, null, undef, bool, num, str, arr, obj, Items, nil, cons, Fields,
  end, field,
}
use open_audit_model.Common.{
  ℕ, String, ◌&&◌, ◌==◌, if◌then◌else◌, prepend, ◌+++◌, zero, suc, ◌+◌, ◌-◌, ◌*◌, Bool, true, false,
  not, ◌||◌, Option, none, some, List, [], ◌∷◌, map, ltb, leb, length, get_elem?, ◌===◌,
}

-- `text.replaceAll(c, by)` for one character `c`
unfoldable pub replace_char : ℕ → String → String → String
replace_char c by String.[] = ""
replace_char c by (String.◌∷◌ d s) =
    if code d == c then by +++ replace_char c by s else prepend d (replace_char c by s)

-- `text.replaceAll(cd, by)` for two characters `c` and `d`, from left to right
unfoldable pub replace_pair : ℕ → ℕ → Char → String → String
replace_pair c d by String.[] = ""
replace_pair c d by (String.◌∷◌ x String.[]) = prepend x ""
replace_pair c d by (String.◌∷◌ x (String.◌∷◌ y s)) =
    let found = prepend by (replace_pair c d by s) in
    let other = prepend x (replace_pair c d by (String.◌∷◌ y s)) in
    if code x == c && code y == d then found else other

-- `pointerSegment`: `~` to `~0`, then `/` to `~1`
unfoldable pub pointer_segment : String → String
pointer_segment property = replace_char 47 "~1" (replace_char 126 "~0" property)

-- `decodeReferenceToken`: `~1` to `/`, then `~0` to `~`
unfoldable pub decode_reference_token : String → String
decode_reference_token token = replace_pair 126 48 "~" (replace_pair 126 49 "/" token)

-- `text.split(c)` for one character `c`; `cur` is the part that is being read
unfoldable pub split_from : ℕ → String → String → List String
split_from c cur String.[] = cur ∷ []
split_from c cur (String.◌∷◌ d s) =
    let closed = cur ∷ split_from c "" s in
    let longer = split_from c (cur +++ prepend d "") s in if code d == c then closed else longer

unfoldable pub split : ℕ → String → List String
unfolding split_from
split c s = split_from c "" s

-- `MAX_POINTER_DEPTH`
abbrev pub max_pointer_depth : ℕ
max_pointer_depth = 32

abbrev tokens_of : List String → Option (List String)
tokens_of tokens =
    if ltb max_pointer_depth (length tokens) then none else some (map decode_reference_token tokens)

-- `pointerTokens`
unfoldable pub pointer_tokens : String → Option (List String)
unfolding decode_reference_token split replace_pair
pointer_tokens String.[] = some []
pointer_tokens (String.◌∷◌ c s) = if code c == 47 then tokens_of (split 47 s) else none

-- `[0-9]{0,most}`, to the end
abbrev all_digits : ℕ → String → Bool
all_digits most String.[] = true
all_digits zero (String.◌∷◌ c s) = false
all_digits (suc most) (String.◌∷◌ c s) = (leb 48 (code c) && leb (code c) 57) && all_digits most s

-- `isIndex`
unfoldable pub is_index : String → Bool
is_index String.[] = false
is_index (String.◌∷◌ c s) =
    (String.◌∷◌ c s === "0") || ((leb 49 (code c) && leb (code c) 57) && all_digits 9 s)

-- `Number(token)` of a token that is an index
unfoldable pub number_of : ℕ → String → ℕ
number_of acc String.[] = acc
number_of acc (String.◌∷◌ c s) = number_of (acc * 10 + (code c - 48)) s

-- One round of the loop of `resolvePointer`: `none` is the early return.
unfoldable pub resolve_token : Value → String → Option Value
unfolding is_index number_of
resolve_token (arr xs) token =
    if is_index token then get_elem? (items xs) (number_of 0 token) else none
resolve_token (obj fs) token = own fs token
resolve_token _ token = none

-- The loop of `resolvePointer`.
unfoldable pub resolve_tokens : Value → List String → Option Value
resolve_tokens current [] = some current
resolve_tokens current (token ∷ tokens) = elim (resolve_token current token) [
  | none ↦ none
  | some next ↦ resolve_tokens next tokens
]

-- `resolvePointer`. `none` is `NOT_FOUND`, whose value is `undefined`.
unfoldable pub resolve_pointer : Value → String → Option Value
unfolding pointer_tokens resolve_token resolve_tokens
resolve_pointer root pointer = elim (pointer_tokens pointer) [
  | none ↦ none
  | some tokens ↦ resolve_tokens root tokens
]

-- `resolution.value`
abbrev pub value_of : Option Value → Value
value_of none = undef
value_of (some v) = v

abbrev has_items : Items → Bool
has_items nil = false
has_items (cons v xs) = true

abbrev has_fields : Fields → Bool
has_fields end = false
has_fields (field k v fs) = true

-- `isPresent`
unfoldable pub is_present : Option Value → Bool
is_present none = false
is_present (some null) = false
is_present (some undef) = false
is_present (some (str s)) = not (s === "")
is_present (some (arr xs)) = has_items xs
is_present (some (obj fs)) = has_fields fs
is_present (some v) = true

-- `jsonTypeOf`
unfoldable pub json_type_of : Value → String
json_type_of null = "null"
json_type_of undef = "undefined"
json_type_of (bool b) = "boolean"
json_type_of (num n) = if is_integer n then "integer" else "number"
json_type_of (str s) = "string"
json_type_of (arr xs) = "array"
json_type_of (obj fs) = "object"

-- `matchesMetadataType`
unfoldable pub matches_metadata_type : Value → String → Bool
unfolding json_type_of
matches_metadata_type value expected =
    if expected === "number"
    then (json_type_of value === "number") || (json_type_of value === "integer")
    else json_type_of value === expected
