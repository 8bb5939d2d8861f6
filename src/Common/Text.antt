-- ===== src/Common/Text.antt =====
-- Text: the comparison of native strings, and their code points.
use Prim.Native.Nat.{ℕ, zero, suc, ◌+◌, ◌/◌, ◌%◌}
use Prim.Native.Char.{Char, code}
use Prim.Native.String.{String}
use mathlib.Core.Path.{◌≡◌}
use mathlib.Core.Bool.{Bool, true, false, ◌||◌}
use mathlib.Core.List.{List, [], ◌∷◌, ◌++◌}
use text.Mathlib.Text.{◌==◌ as text_eq}
use text.Mathlib.TextEquality.{eq_iff}
use text.Mathlib.TextPositions.{eq_refl}
use open_audit_model.Common.Tests.{if◌then◌else◌, ltb, ◌==◌}

-- `===` on strings
infix 50 ◌===◌
abbrev pub ◌===◌ : String → String → Bool
s === t = text_eq s t

pub ===→≡ : (s t : String) → (s === t) ≡ true → s ≡ t
===→≡ s t h = (eq_iff s t).0 h

pub ===_refl : (s : String) → (s === s) ≡ true
===_refl s = eq_refl s

pub ≡→=== : (s t : String) → s ≡ t → (s === t) ≡ true
≡→=== s t h = (eq_iff s t).1 h

-- `Array.prototype.includes`, `Set.prototype.has`
abbrev pub includes : List String → String → Bool
includes [] s = false
includes (t ∷ ts) s = (t === s) || includes ts s

-- The code points of a text. `String` has its own `[]` and `∷`.
abbrev pub codes : String → List ℕ
codes String.[] = []
codes (String.◌∷◌ c s) = code c ∷ codes s

-- `String.prototype.length`: the number of UTF-16 code units.
abbrev pub utf16_length : String → ℕ
utf16_length String.[] = 0
utf16_length (String.◌∷◌ c s) = (if ltb (code c) 0x10000 then 1 else 2) + utf16_length s

-- `${n}` for a natural number, by its digits from the right; the fuel `n` covers the digits.
abbrev pub digit : ℕ → Char
digit n =
    if n == 0
    then "0"
    else if n == 1
    then "1"
    else if n == 2
    then "2"
    else if n == 3
    then "3"
    else if n == 4
    then "4"
    else if n == 5
    then "5"
    else if n == 6
    then "6"
    else if n == 7
    then "7"
    else if n == 8
    then "8"
    else "9"

abbrev pub prepend : Char → String → String
prepend c s = String.◌∷◌ c s

unfoldable pub digits_from : ℕ → ℕ → String → String
digits_from zero n rest = prepend (digit (n % 10)) rest
digits_from (suc f) n rest =
    let more = digits_from f (n / 10) (prepend (digit (n % 10)) rest) in
    if ltb n 10 then prepend (digit n) rest else more

unfoldable pub decimal : ℕ → String
unfolding digits_from
decimal n = digits_from n n ""

infixl 65 ◌+++◌
abbrev pub ◌+++◌ : String → String → String
String.[] +++ t = t
(String.◌∷◌ c s) +++ t = String.◌∷◌ c (s +++ t)

-- `TextEncoder.encode`: the UTF-8 bytes.
abbrev pub utf8_char : ℕ → List ℕ
utf8_char c =
    if ltb c 0x80
    then c ∷ []
    else if ltb c 0x800
    then (0xc0 + c / 64) ∷ (0x80 + c % 64) ∷ []
    else if ltb c 0x10000
    then (0xe0 + c / 4096) ∷ (0x80 + c / 64 % 64) ∷ (0x80 + c % 64) ∷ []
    else (0xf0 + c / 262144) ∷ (0x80 + c / 4096 % 64) ∷ (0x80 + c / 64 % 64) ∷ (0x80 + c % 64) ∷ []

unfoldable pub utf8 : String → List ℕ
utf8 String.[] = []
utf8 (String.◌∷◌ c s) = utf8_char (code c) ++ utf8 s
