-- ===== src/Sources.antt =====
-- conformance/src/sources.ts: events read from files. Opening a file, what the reads of it return,
-- and the JSON parser are parameters; the wording of failures is not modelled.
pub mod Chunks
pub mod Units
pub mod Stream
pub mod Depth
pub mod Failures
use open_audit_model.Common.{
  ℕ, ◌+◌, ◌*◌, String, Bool, true, false, not, ◌&&◌, ◌||◌, Option, none, some, List, [], ◌∷◌, ltb,
  ◌==◌, if◌then◌else◌, length, ◌===◌, utf16_length, prepend, ◌+++◌, utf8,
}
use Prim.Native.Char.{code}
use open_audit_model.Json.{Fields, field, end, Items, cons, nil, Value, obj, arr}

-- `MAX_DOCUMENT_BYTES` and `MAX_LINE_BYTES`
abbrev pub max_document_bytes : ℕ
max_document_bytes = 8388608

-- Why `readLines` throws.
pub data LineError : Type 0 where
  file_grew : ℕ → LineError
  line_too_long : ℕ → LineError
  unreadable : LineError

-- What the reads of a descriptor return: the bytes read and the text that the decoder gives for
-- them; at the end of the file, what the decoder still held; or an error.
pub data Reads : Type 0 where
  chunk : ℕ → String → Reads → Reads
  ended : String → Reads
  broken : Reads

-- What the generator `readLines` yields, in order, and how it ends.
pub data Lines : Type 0 where
  line : String → ℕ → Lines → Lines
  finished : Lines
  thrown : LineError → Lines

-- `tooLong`
unfoldable pub too_long : String → Bool
too_long text =
    ltb max_document_bytes (utf16_length text * 3) && ltb max_document_bytes (length (utf8 text))

-- The lines that a newline ends, and what follows the last newline.
abbrev pub with_char : String → List String × String → List String × String
with_char c ([], rest) = ([], c +++ rest)
with_char c (l ∷ ls, rest) = ((c +++ l) ∷ ls, rest)

unfoldable pub complete_lines : String → List String × String
complete_lines String.[] = ([], "")
complete_lines (String.◌∷◌ c s) =
    let after = complete_lines s in
    if code c == 10 then ("" ∷ after.0, after.1) else with_char (prepend c "") after

-- The inner loop: each complete line is numbered, measured and yielded.
unfoldable pub yield_lines : List String → ℕ → (ℕ → Lines) → Lines
yield_lines [] number next = next number
yield_lines (l ∷ ls) number next =
    let rest = yield_lines ls (number + 1) next in
    if too_long l then thrown (line_too_long (number + 1)) else line l (number + 1) rest

-- What follows the outer loop: a last line that no newline ends.
unfoldable pub last_line : String → ℕ → Lines
last_line pending number =
    if pending === ""
    then finished
    else if too_long pending
    then thrown (line_too_long (number + 1))
    else line pending (number + 1) finished

abbrev pub exceeds : Option ℕ → ℕ → Option ℕ
exceeds none total = none
exceeds (some limit) total = if ltb limit total then some limit else none

-- `readLines` from the variables `pending`, `number` and `total`
unfoldable pub read_lines : Option ℕ → Reads → String → ℕ → ℕ → Lines
read_lines limit broken pending number total = thrown unreadable
read_lines limit (ended text) pending number total = last_line (pending +++ text) number
read_lines limit (chunk n text more) pending number total =
    let after = complete_lines (pending +++ text) in
    let rest : ℕ → Lines = λ m. read_lines limit more after.1 m (total + n) in
    elim (exceeds limit (total + n)) [
      | some bound ↦ thrown (file_grew bound)
      | none ↦
          yield_lines after.0 number
            (λ m. if too_long after.1 then thrown (line_too_long (m + 1)) else rest m)
    ]

-- `nestedTooDeep`
unfoldable mutual
  pub nested_too_deep : Value → ℕ → Bool
  nested_too_deep (arr xs) depth = if ltb 200 depth then true else some_too_deep xs (depth + 1)
  nested_too_deep (obj fs) depth = if ltb 200 depth then true else field_too_deep fs (depth + 1)
  nested_too_deep v depth = ltb 200 depth

  -- `value.some(…)`
  pub some_too_deep : Items → ℕ → Bool
  some_too_deep nil depth = false
  some_too_deep (cons v xs) depth = nested_too_deep v depth || some_too_deep xs depth

  -- `Object.values(value).some(…)`
  pub field_too_deep : Fields → ℕ → Bool
  field_too_deep end depth = false
  field_too_deep (field k v fs) depth = nested_too_deep v depth || field_too_deep fs depth
