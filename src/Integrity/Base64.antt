-- ===== src/Integrity/Base64.antt =====
-- conformance/src/integrity/signature.ts: the test of a base64 signature value, and its decoding.
use Prim.Native.Char.{code}
use open_audit_model.Common.{
  ℕ, ◌+◌, ◌-◌, ◌*◌, ◌/◌, ◌%◌, String, Bool, true, false, ◌&&◌, ◌||◌, List, [], ◌∷◌, leb, ◌==◌,
  if◌then◌else◌,
}
use open_audit_model.Integrity.Types.{Bytes}

-- `[A-Za-z0-9+/]`
abbrev is_base64_char : ℕ → Bool
is_base64_char c =
    (leb 65 c && leb c 90)
    || (leb 97 c && leb c 122)
    || (leb 48 c && leb c 57)
    || c == 43
    || c == 47

-- `=*`, to the end
unfoldable pub only_padding : String → Bool
only_padding String.[] = true
only_padding (String.◌∷◌ c s) = code c == 61 && only_padding s

-- `[A-Za-z0-9+/]*=*`, to the end
unfoldable pub base64_rest : String → Bool
base64_rest String.[] = true
base64_rest (String.◌∷◌ c s) =
    (is_base64_char (code c) && base64_rest s) || only_padding (String.◌∷◌ c s)

-- `BASE64_SIGNATURE`
unfoldable pub is_base64 : String → Bool
is_base64 String.[] = false
is_base64 (String.◌∷◌ c s) = is_base64_char (code c) && base64_rest s

abbrev sextet : ℕ → ℕ
sextet c =
    if c == 43
    then 62
    else if c == 47
    then 63
    else if leb c 57
    then c + 4
    else if leb c 90
    then c - 65
    else c - 71

-- The sextets of a base64 text up to its padding.
unfoldable pub sextets : String → List ℕ
sextets String.[] = []
sextets (String.◌∷◌ c s) =
    let rest = sextets s in if is_base64_char (code c) then sextet (code c) ∷ rest else []

unfoldable pub join_sextets : List ℕ → Bytes
join_sextets (a ∷ b ∷ c ∷ d ∷ rest) =
    (a * 4 + b / 16) ∷ (b % 16 * 16 + c / 4) ∷ (c % 4 * 64 + d) ∷ join_sextets rest
join_sextets (a ∷ b ∷ c ∷ []) = (a * 4 + b / 16) ∷ (b % 16 * 16 + c / 4) ∷ []
join_sextets (a ∷ b ∷ []) = (a * 4 + b / 16) ∷ []
join_sextets _ = []

-- `Buffer.from(value, "base64")` of a text that `BASE64_SIGNATURE` matches
unfoldable pub from_base64 : String → Bytes
from_base64 value = join_sextets (sextets value)
