-- ===== src/Json/Pointer/Escaping.antt =====
-- Escaping and decoding of reference tokens.
use Prim.Native.Char.{Char, code}
use text.Mathlib.TextEquality.{Char-path}
use mathlib.Core.Path.{ap₂}
use open_audit_model.Common.{
  String, ◌≡◌, refl, ℕ, sym, ap, ◌∙◌, inl, inr, true, false, arith, ◌==◌, ==_iff, Bool-cases,
  prepend,
}
use open_audit_model.Json.Pointer.{
  replace_char, replace_pair, pointer_segment, decode_reference_token,
}

-- `~` alone escaped, and `/` alone escaped.
abbrev tildes : String → String
tildes s = replace_char 126 "~0" s

abbrev slashes : String → String
slashes s = replace_char 47 "~1" s

module _ (c d : ℕ) (by : Char) where
  -- A character other than `c` is passed over.
  skip :
      (x : Char) (t : String)
      → (code x == c) ≡ false
      → replace_pair c d by (prepend x t) ≡ prepend x (replace_pair c d by t)
  unfolding replace_pair
  skip x String.[] e = refl
  skip x (String.◌∷◌ y t) e = rw e

  found :
      (x y : Char) (t : String)
      → (code x == c) ≡ true
      → (code y == d) ≡ true
      → replace_pair c d by (prepend x (prepend y t)) ≡ prepend by (replace_pair c d by t)
  unfolding replace_pair
  found x y t e f = rw (e, f)

  other :
      (x y : Char) (t : String)
      → (code y == d) ≡ false
      → replace_pair c d by (prepend x (prepend y t))
        ≡ prepend x (replace_pair c d by (prepend y t))
  unfolding replace_pair
  other x y t f = ground (arith, f)

-- Decoding `~0` undoes the escaping of `~`.
replace_pair-tildes : (s : String) → replace_pair 126 48 "~" (tildes s) ≡ s
unfolding replace_char
replace_pair-tildes String.[] = unfold replace_pair in refl
replace_pair-tildes (String.◌∷◌ c s) = elim (Bool-cases (code c == 126)) [
  | inl tilde ↦ rw tilde (
      found 126 48 "~" "~" "0" (tildes s) refl refl
      ∙ ap₂ prepend (Char-path "~" c (sym ((==_iff _ _).0 tilde))) (replace_pair-tildes s))
  | inr plain ↦
      rw plain (skip 126 48 "~" c (tildes s) plain ∙ ap (prepend c) (replace_pair-tildes s))
]

-- Decoding `~1` undoes the escaping of `/`, since no escaped `~` is followed by `1`.
replace_pair-slashes : (s : String) → replace_pair 126 49 "/" (slashes (tildes s)) ≡ tildes s
unfolding replace_char
replace_pair-slashes String.[] = unfold replace_pair in refl
replace_pair-slashes (String.◌∷◌ c s) = elim (Bool-cases (code c == 126)) [
  | inl tilde ↦ rw tilde (
      other 126 49 "/" "~" "0" (slashes (tildes s)) refl
      ∙ ap (prepend "~") (
          skip 126 49 "/" "0" (slashes (tildes s)) refl
          ∙ ap (prepend "0") (replace_pair-slashes s)))
  | inr plain ↦ elim (Bool-cases (code c == 47)) [
    | inl slash ↦
        rw (plain, slash)
          (found 126 49 "/" "~" "1" (slashes (tildes s)) refl refl
            ∙ ap₂ prepend (Char-path "/" c (sym ((==_iff _ _).0 slash))) (replace_pair-slashes s))
    | inr other_char ↦
        rw (plain, other_char)
          (skip 126 49 "/" c (slashes (tildes s)) plain ∙ ap (prepend c) (replace_pair-slashes s))
  ]
]

-- Decoding a reference token that was escaped gives the property name back, for every name.
pub decode_reference_token-pointer_segment :
    (property : String) → decode_reference_token (pointer_segment property) ≡ property
unfolding decode_reference_token pointer_segment
decode_reference_token-pointer_segment property =
    ap (replace_pair 126 48 "~") (replace_pair-slashes property) ∙ replace_pair-tildes property
