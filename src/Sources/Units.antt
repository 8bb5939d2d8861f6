-- ===== src/Sources/Units.antt =====
-- The length of a line in bytes and in UTF-16 units.
use open_audit_model.Common.{
  ℕ, ◌*◌, ◌≤◌, String, ◌≡◌, refl, sym, inl, inr, true, arith, ltb, if◌then◌else◌, ltb-false→le,
  le→not_ltb, Bool-cases, length, length-append, utf16_length, ◌+++◌, utf8, utf8_char, ◌∙◌, ltb→lt,
  lt→ltb,
}
use Prim.Native.Char.{code}
use open_audit_model.Sources.{too_long}

char_bytes : (c : ℕ) → length (utf8_char c) ≤ (if ltb c 0x10000 then 1 else 2) * 3
char_bytes c = ground arith

-- A text has at most three bytes for each unit.
bytes-le-units : (s : String) → length (utf8 s) ≤ utf16_length s * 3
unfolding utf8
bytes-le-units String.[] = omega arith
bytes-le-units (String.◌∷◌ c s) =
    omega (
      arith,
      length-append {0} (utf8_char (code c)) (utf8 s),
      char_bytes (code c),
      bytes-le-units s,
    )

-- The count of the units only saves the count of the bytes: a line is too long exactly when its
-- UTF-8 bytes are more than 8 MiB.
pub too_long-bytes : (s : String) → too_long s ≡ ltb 8388608 (length (utf8 s))
unfolding too_long
too_long-bytes s = elim (Bool-cases (ltb 8388608 (utf16_length s * 3))) [
  | inl l ↦ rw l refl
  | inr f ↦ rw f (sym (le→not_ltb _ _ (omega (arith, bytes-le-units s, ltb-false→le _ _ f))))
]

bytes_grow : (s t : String) → length (utf8 s) ≤ length (utf8 (s +++ t))
unfolding utf8
bytes_grow String.[] t = omega arith
bytes_grow (String.◌∷◌ c s) t = omega (
  arith,
  length-append {0} (utf8_char (code c)) (utf8 s),
  length-append {0} (utf8_char (code c)) (utf8 (s +++ t)),
  bytes_grow s t,
)

-- A text that continues a line that is too long is too long.
pub too_long-append : (s t : String) → too_long s ≡ true → too_long (s +++ t) ≡ true
too_long-append s t h =
    let long = ltb→lt _ _ (sym (too_long-bytes s) ∙ h) in
    too_long-bytes (s +++ t) ∙ lt→ltb _ _ (omega (arith, long, bytes_grow s t))
