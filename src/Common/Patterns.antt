-- ===== src/Common/Patterns.antt =====
-- What the source asks of a text by methods of strings and by regular expressions.
use Prim.Native.Nat.{ℕ, zero, suc, ◌+◌}
use Prim.Native.Char.{code}
use Prim.Native.String.{String}
use mathlib.Core.Bool.{Bool, true, false, ◌&&◌, ◌||◌}
use mathlib.Core.List.{List, [], ◌∷◌}
use mathlib.Core.Option.{Option, none, some}
use open_audit_model.Common.Tests.{if◌then◌else◌, leb, ◌==◌}
use open_audit_model.Common.Text.{prepend, utf16_length}

-- `\s`, and what `trim` takes off
abbrev pub is_white_space : ℕ → Bool
is_white_space c =
    (leb 9 c && leb c 13)
    || c == 32
    || c == 0xa0
    || c == 0x1680
    || (leb 0x2000 c && leb c 0x200a)
    || c == 0x2028
    || c == 0x2029
    || c == 0x202f
    || c == 0x205f
    || c == 0x3000
    || c == 0xfeff

abbrev pub is_blank : String → Bool
is_blank String.[] = true
is_blank (String.◌∷◌ c s) = false

-- `text.trimStart()`
unfoldable pub trim_start : String → String
trim_start String.[] = ""
trim_start (String.◌∷◌ c s) =
    let rest = trim_start s in if is_white_space (code c) then rest else String.◌∷◌ c s

-- `text.trimEnd()`
unfoldable pub trim_end : String → String
trim_end String.[] = ""
trim_end (String.◌∷◌ c s) =
    let rest = trim_end s in if is_white_space (code c) && is_blank rest then "" else prepend c rest

-- `text.trim()`
unfoldable pub trim : String → String
unfolding trim_start trim_end
trim s = trim_end (trim_start s)

-- Whether every character is of the class, as in `^[…]*$`.
abbrev pub every_char : (ℕ → Bool) → String → Bool
every_char p String.[] = true
every_char p (String.◌∷◌ c s) = p (code c) && every_char p s

abbrev pub some_char : (ℕ → Bool) → String → Bool
some_char p String.[] = false
some_char p (String.◌∷◌ c s) = p (code c) || some_char p s

-- `^[…]{least,most}$`, for a class within one UTF-16 unit
abbrev pub run_of : (ℕ → Bool) → ℕ → ℕ → String → Bool
run_of p least most s = every_char p s && leb least (utf16_length s) && leb (utf16_length s) most

-- `^[…][…]…$`, one class for each character
abbrev pub matches_classes : List (ℕ → Bool) → String → Bool
matches_classes [] String.[] = true
matches_classes [] (String.◌∷◌ c s) = false
matches_classes (p ∷ ps) String.[] = false
matches_classes (p ∷ ps) (String.◌∷◌ c s) = p (code c) && matches_classes ps s

abbrev pub times {ℓ} : {A : Type ℓ} → ℕ → A → List A
times zero x = []
times (suc n) x = x ∷ times n x

-- What follows a prefix, whose characters are compared by `same`.
abbrev pub strip_prefix : (ℕ → ℕ → Bool) → String → String → Option String
strip_prefix same String.[] s = some s
strip_prefix same (String.◌∷◌ c p) String.[] = none
strip_prefix same (String.◌∷◌ c p) (String.◌∷◌ d s) =
    let rest = strip_prefix same p s in if same (code c) (code d) then rest else none

abbrev pub same_code : ℕ → ℕ → Bool
same_code c d = c == d

abbrev pub ascii_lower : ℕ → ℕ
ascii_lower c = if leb 65 c && leb c 90 then c + 32 else c

-- Two characters under the flag `i`, where one of them is of ASCII.
abbrev pub same_letter : ℕ → ℕ → Bool
same_letter c d = ascii_lower c == ascii_lower d

-- `text.includes(part)`
abbrev pub contains : String → String → Bool
contains part String.[] = is_blank part
contains part (String.◌∷◌ c s) = elim (strip_prefix same_code part (String.◌∷◌ c s)) [
  | some rest ↦ true
  | none ↦ contains part s
]

-- `text.slice(text.lastIndexOf(c) + 1)`, for one character `c` that the text has
abbrev pub after_last : ℕ → String → Option String
after_last c String.[] = none
after_last c (String.◌∷◌ d s) = elim (after_last c s) [
  | some t ↦ some t
  | none ↦ if code d == c then some s else none
]

-- `text.slice(0, text.indexOf(c))` and what follows the first `c`
abbrev pub cut_at : ℕ → String → Option (String × String)
cut_at c String.[] = none
cut_at c (String.◌∷◌ d s) =
    let rest : Option (String × String) = elim (cut_at c s) [
      | none ↦ none
      | some (a, b) ↦ some (prepend d a, b)
    ] in
    if code d == c then some ("", s) else rest

-- `text.replaceAll(/[…]/g, "")`
abbrev pub without : (ℕ → Bool) → String → String
without p String.[] = ""
without p (String.◌∷◌ c s) = let rest = without p s in if p (code c) then rest else prepend c rest

-- Classes of characters.
abbrev pub is_digit_char : ℕ → Bool
is_digit_char c = leb 48 c && leb c 57

abbrev pub is_lower_char : ℕ → Bool
is_lower_char c = leb 97 c && leb c 122

abbrev pub is_upper_char : ℕ → Bool
is_upper_char c = leb 65 c && leb c 90

abbrev pub is_alphanumeric : ℕ → Bool
is_alphanumeric c = is_digit_char c || is_lower_char c || is_upper_char c
