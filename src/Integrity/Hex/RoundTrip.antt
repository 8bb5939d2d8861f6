-- ===== src/Integrity/Hex/RoundTrip.antt =====
-- Encoding and decoding of digests, and what their comparison decides.
use Prim.Native.Char.{Char, code}
use text.Mathlib.TextEquality.{Char-path}
use open_audit_model.Integrity.Types.{Bytes, IsByte}
use open_audit_model.Common.{
  zero, suc, ℕ, ◌<◌, ◌≡◌, refl, Bool, true, not, ◌&&◌, ◌||◌, arith, ltb, ◌==◌, ltb→lt, ==_iff,
  true-of-&&, ◌+◌, ◌*◌, ◌/◌, ◌%◌, String, [], ◌∷◌, lt→ltb, length, All, utf16_length, sym, ap, ◌∙◌,
  ◌↔◌, inl, inr, Bool-cases,
}
use open_audit_model.Integrity.Hex.{
  is_hex_digest, bytes_equal, digests_equal, is_hex_digit, is_any_hex_digit, hex_value, hex_char,
  hex_pairs, from_hex, to_hex,
}

-- A test of every number under a bound, from the bound down.
tested : (ℕ → Bool) → ℕ → Bool
tested test zero = true
tested test (suc bound) = tested test bound && test bound

tested_at : (test : ℕ → Bool) (bound i : ℕ) → i < bound → tested test bound ≡ true → test i ≡ true
unfolding tested
tested_at test zero i below all_hold = absurd (omega arith)
tested_at test (suc bound) i below all_hold = ground (arith, tested_at test bound i)

abbrev nibble_ok : ℕ → Bool
nibble_ok n = is_hex_digit (code (hex_char n)) && hex_value (code (hex_char n)) == n

nibble_table : tested nibble_ok 16 ≡ true
unfolding tested
nibble_table = refl

nibble :
    (n : ℕ)
    → n < 16
    → (is_hex_digit (code (hex_char n)) ≡ true) × (hex_value (code (hex_char n)) ≡ n)
nibble n h =
    let (d, v) = true-of-&& _ _ (tested_at nibble_ok 16 n h nibble_table) in (d, (==_iff _ _).0 v)

abbrev digit_ok : ℕ → Bool
digit_ok c = not (is_hex_digit c) || (code (hex_char (hex_value c)) == c && ltb (hex_value c) 16)

digit_table : tested digit_ok 128 ≡ true
unfolding tested
digit_table = refl

hex_digit-lt : (c : ℕ) → is_hex_digit c ≡ true → c < 128
hex_digit-lt c h = ground arith

digit_facts :
    (c : ℕ) → is_hex_digit c ≡ true → (code (hex_char (hex_value c)) ≡ c) × (hex_value c < 16)
digit_facts c h =
    let t = tested_at digit_ok 128 c (hex_digit-lt c h) digit_table in
    let (e, l) = true-of-&& _ _ (cut _ _ h t) in ((==_iff _ _).0 e, ltb→lt _ _ l)
  where
    cut : (a b : Bool) → a ≡ true → (not a || b) ≡ true → b ≡ true
    cut a b p q = ground arith

any_of_hex : (c : ℕ) → is_hex_digit c ≡ true → is_any_hex_digit c ≡ true
any_of_hex c h = rw h

byte_split : (b : ℕ) → b < 256 → (b / 16 < 16) × (b % 16 < 16) × (16 * (b / 16) + b % 16 ≡ b)
byte_split b h = (omega arith, omega arith, omega arith)

pub hex_pairs-to_hex : (bs : Bytes) → All IsByte bs → hex_pairs (to_hex bs) ≡ true
unfolding hex_pairs to_hex
hex_pairs-to_hex [] h = refl
hex_pairs-to_hex (b ∷ bs) (p, h) =
    let (hi, lo, e) = byte_split b p in
    rw ((nibble (b / 16) hi).0, (nibble (b % 16) lo).0) (hex_pairs-to_hex bs h)

-- Decoding an encoded digest gives the bytes back.
pub from_hex-to_hex : (bs : Bytes) → All IsByte bs → from_hex (to_hex bs) ≡ bs
unfolding from_hex to_hex
from_hex-to_hex [] h = refl
from_hex-to_hex (b ∷ bs) (p, h) =
    let (hi, lo, e) = byte_split b p in
    rw (
      any_of_hex _ (nibble (b / 16) hi).0,
      any_of_hex _ (nibble (b % 16) lo).0,
      (nibble (b / 16) hi).1,
      (nibble (b % 16) lo).1,
      e,
      from_hex-to_hex bs h,
    )

unit_length : (c : Char) → is_hex_digit (code c) ≡ true → ltb (code c) 0x10000 ≡ true
unit_length c h = let l = hex_digit-lt (code c) h in omega (arith, lt→ltb)

pub utf16_length-to_hex : (bs : Bytes) → All IsByte bs → utf16_length (to_hex bs) ≡ 2 * length bs
unfolding to_hex
utf16_length-to_hex [] h = refl
utf16_length-to_hex (b ∷ bs) (p, h) =
    let (hi, lo, e) = byte_split b p in
    rw (unit_length _ (nibble (b / 16) hi).0, unit_length _ (nibble (b % 16) lo).0)
      (omega (arith, utf16_length-to_hex bs h))

-- Encoding a decoded digest gives its text back.
pub to_hex-from_hex : (s : String) → hex_pairs s ≡ true → to_hex (from_hex s) ≡ s
unfolding hex_pairs from_hex to_hex
to_hex-from_hex String.[] h = refl
to_hex-from_hex (String.◌∷◌ c String.[]) h = cc
to_hex-from_hex (String.◌∷◌ c (String.◌∷◌ d s)) h =
    let (p, r) = true-of-&& _ _ h in
    let (q, t) = true-of-&& _ _ r in
    let (ec, lc) = digit_facts (code c) p in
    let (ed, ld) = digit_facts (code d) q in
    let hi : (16 * hex_value (code c) + hex_value (code d)) / 16 ≡ hex_value (code c) =
      omega arith in
    let lo : (16 * hex_value (code c) + hex_value (code d)) % 16 ≡ hex_value (code d) =
      omega arith in
    let pc : hex_char (hex_value (code c)) ≡ c = Char-path _ _ ec in
    let pd : hex_char (hex_value (code d)) ≡ d = Char-path _ _ ed in
    rw (any_of_hex _ p, any_of_hex _ q, hi, lo, pc, pd, to_hex-from_hex s t)

bytes_equal→≡ : (xs ys : Bytes) → bytes_equal xs ys ≡ true → xs ≡ ys
unfolding bytes_equal
bytes_equal→≡ [] [] h = refl
bytes_equal→≡ (x ∷ xs) (y ∷ ys) h =
    let (p, q) = true-of-&& _ _ h in cc ((==_iff x y).0 p, bytes_equal→≡ xs ys q)
bytes_equal→≡ _ _ h = cc

bytes_equal_refl : (xs : Bytes) → bytes_equal xs xs ≡ true
unfolding bytes_equal
bytes_equal_refl [] = refl
bytes_equal_refl (x ∷ xs) = rw ((==_iff x x).1 refl) (bytes_equal_refl xs)

pub hex_pairs_of_digest : (s : String) → is_hex_digest s ≡ true → hex_pairs s ≡ true
unfolding is_hex_digest
hex_pairs_of_digest s h = (true-of-&& _ _ h).1

digests_equal_sound :
    (left right : String)
    → digests_equal left right ≡ true
    → (is_hex_digest left ≡ true) × (left ≡ right)
unfolding digests_equal
digests_equal_sound left right h = elim (Bool-cases (is_hex_digest left)) [
  | inr bad ↦ cc (rw bad at h)
  | inl good ↦ elim (Bool-cases (is_hex_digest right)) [
    | inr bad ↦ cc (rw (good, bad) at h)
    | inl fine ↦
        let e : from_hex left ≡ from_hex right = bytes_equal→≡ _ _ (ground arith) in
        (
          good,
          sym (to_hex-from_hex left (hex_pairs_of_digest left good))
              ∙ (ap to_hex e ∙ to_hex-from_hex right (hex_pairs_of_digest right fine)),
        )
  ]
]

-- `digestsEqual` holds of exactly two equal texts in the accepted encoding.
pub digests_equal_iff :
    (left right : String)
    → (digests_equal left right ≡ true) ↔ ((is_hex_digest left ≡ true) × (left ≡ right))
unfolding digests_equal
digests_equal_iff left right = (digests_equal_sound left right, back)
  where
    back : (is_hex_digest left ≡ true) × (left ≡ right) → digests_equal left right ≡ true
    back (good, same) =
        rw (← same, good, (==_iff (length (from_hex left)) _).1 refl)
          (bytes_equal_refl (from_hex left))
