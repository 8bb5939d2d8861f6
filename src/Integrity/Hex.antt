-- ===== src/Integrity/Hex.antt =====
-- Hexadecimal digests of conformance/src/integrity/digest.ts: the accepted encoding, Node's
-- `Buffer` conversions, and the comparison of two digests.
pub mod RoundTrip
use Prim.Native.Char.{Char, code}
use open_audit_model.Common.{
  ℕ, ◌+◌, ◌-◌, ◌*◌, ◌/◌, ◌%◌, String, Bool, true, false, not, ◌&&◌, ◌||◌, [], ◌∷◌, leb, ◌==◌,
  if◌then◌else◌, length, ◌===◌,
}
use open_audit_model.Integrity.Types.{Bytes}

-- `[0-9a-f]`
abbrev pub is_hex_digit : ℕ → Bool
is_hex_digit c = (leb 48 c && leb c 57) || (leb 97 c && leb c 102)

-- `[0-9a-fA-F]`, which `Buffer.from(value, "hex")` reads
abbrev pub is_any_hex_digit : ℕ → Bool
is_any_hex_digit c = is_hex_digit c || (leb 65 c && leb c 70)

abbrev pub hex_value : ℕ → ℕ
hex_value c = if leb c 57 then c - 48 else if leb c 70 then c - 55 else c - 87

-- `([0-9a-f]{2})*`
unfoldable pub hex_pairs : String → Bool
hex_pairs String.[] = true
hex_pairs (String.◌∷◌ c String.[]) = false
hex_pairs (String.◌∷◌ c (String.◌∷◌ d s)) =
    is_hex_digit (code c) && (is_hex_digit (code d) && hex_pairs s)

-- `isHexDigest` on a string: `/^([0-9a-f]{2})+$/`
unfoldable pub is_hex_digest : String → Bool
unfolding hex_pairs
is_hex_digest s = not (s === "") && hex_pairs s

-- `Buffer.from(value, "hex")` stops at the first pair that is not hexadecimal.
unfoldable pub from_hex : String → Bytes
from_hex String.[] = []
from_hex (String.◌∷◌ c String.[]) = []
from_hex (String.◌∷◌ c (String.◌∷◌ d s)) =
    let rest = from_hex s in
    if is_any_hex_digit (code c) && is_any_hex_digit (code d)
    then (16 * hex_value (code c) + hex_value (code d)) ∷ rest
    else []

abbrev pub hex_char : ℕ → Char
hex_char n =
    if n == 0
    then "0"
    else if n == 1
    then "1"
    else if n == 2
    then "2"
    else if n == 3
    then "3"
    else if n == 4
    then "4"
    else if n == 5
    then "5"
    else if n == 6
    then "6"
    else if n == 7
    then "7"
    else if n == 8
    then "8"
    else if n == 9
    then "9"
    else if n == 10
    then "a"
    else if n == 11
    then "b"
    else if n == 12
    then "c"
    else if n == 13
    then "d"
    else if n == 14
    then "e"
    else "f"

-- `buffer.toString("hex")`
unfoldable pub to_hex : Bytes → String
to_hex [] = ""
to_hex (b ∷ bs) = String.◌∷◌ (hex_char (b / 16)) (String.◌∷◌ (hex_char (b % 16)) (to_hex bs))

-- `timingSafeEqual` on bytes
unfoldable pub bytes_equal : Bytes → Bytes → Bool
bytes_equal [] [] = true
bytes_equal (x ∷ xs) (y ∷ ys) = x == y && bytes_equal xs ys
bytes_equal _ _ = false

-- `digestsEqual`
unfoldable pub digests_equal : String → String → Bool
unfolding is_hex_digest from_hex bytes_equal
digests_equal left right =
    if not (is_hex_digest left) || not (is_hex_digest right)
    then false
    else if not (length (from_hex left) == length (from_hex right))
    then false
    else bytes_equal (from_hex left) (from_hex right)
