-- ===== src/Sources/Chunks.antt =====
-- The lines that are read do not depend on where the reads cut the file.
use mathlib.Core.Path.{fun_ext}
use open_audit_model.Common.{
  ℕ, String, ◌≡◌, refl, ap, ◌∙◌, inl, inr, false, none, List, [], ◌∷◌, ◌++◌, ◌==◌, Bool-cases,
  prepend, ◌+++◌, ◌+◌, true, subst, if◌then◌else◌, ◌===◌, ===→≡, utf8, sym,
}
use Prim.Native.Char.{Char, code}
use open_audit_model.Sources.{
  complete_lines, yield_lines, last_line, Reads, chunk, ended, broken, Lines, too_long, with_char,
  line_too_long, line, thrown, read_lines,
}
use open_audit_model.Sources.Units.{too_long-append}

-- The decoder gives no newline at the end of the file.
abbrev pub EndsPlain : Reads → Type 0
EndsPlain broken = ⊥
EndsPlain (ended t) = (complete_lines t).0 ≡ []
EndsPlain (chunk n t more) = EndsPlain more

-- The text of a file that is read to its end.
abbrev pub whole_text : Reads → String
whole_text broken = ""
whole_text (ended t) = t
whole_text (chunk n t more) = t +++ whole_text more

-- The lines of a text, read at once: those that a newline ends, and a last one.
pub lines_of : String → ℕ → Lines
lines_of text number =
    yield_lines (complete_lines text).0 number (last_line (complete_lines text).1)

+++_assoc : (a b c : String) → (a +++ b) +++ c ≡ a +++ (b +++ c)
+++_assoc String.[] b c = refl
+++_assoc (String.◌∷◌ x a) b c = ap (prepend x) (+++_assoc a b c)

+++_nil : (a : String) → a +++ "" ≡ a
+++_nil String.[] = refl
+++_nil (String.◌∷◌ x a) = ap (prepend x) (+++_nil a)

-- The complete lines of a text that goes on with `b`.
joined : List String × String → String → List String × String
joined (ls, rest) b = (ls ++ (complete_lines (rest +++ b)).0, (complete_lines (rest +++ b)).1)

complete_lines-append : (a b : String) → complete_lines (a +++ b) ≡ joined (complete_lines a) b
unfolding complete_lines joined
complete_lines-append String.[] b = refl
complete_lines-append (String.◌∷◌ c a) b = elim (Bool-cases (code c == 10)) [
  | inl newline ↦
      rw (newline, if◌then◌else◌) (ap (λ p. ("" ∷ p.0, p.1)) (complete_lines-append a b))
  | inr other ↦
      rw (other, if◌then◌else◌)
        (ap (with_char (prepend c "")) (complete_lines-append a b) ∙ step (complete_lines a) other)
]
  where
    step :
        (p : List String × String)
        → (code c == 10) ≡ false
        → with_char (prepend c "") (joined p b) ≡ joined (with_char (prepend c "") p) b
    step ([], rest) other = rw other refl
    step (l ∷ ls, rest) other = refl

-- No newline stands in the text.
abbrev IsPlain : String → Type 0
IsPlain a = (complete_lines a).0 ≡ []

IsPlain-cons :
    (c : Char) (s : String) → IsPlain (prepend c s) → ((code c == 10) ≡ false) × IsPlain s
unfolding complete_lines
IsPlain-cons c s h = elim (Bool-cases (code c == 10)) [
  | inl newline ↦ cc (rw newline at h)
  | inr other ↦ (other, tail (complete_lines s) (rw other at h))
]
  where
    tail : (p : List String × String) → (with_char (prepend c "") p).0 ≡ [] → p.0 ≡ []
    tail ([], rest) e = refl
    tail (l ∷ ls, rest) e = cc

-- What comes before the first complete line, or before the rest where there is none.
after_text : String → List String × String → List String × String
after_text a ([], rest) = ([], a +++ rest)
after_text a (l ∷ ls, rest) = ((a +++ l) ∷ ls, rest)

complete_lines-after :
    (a b : String) → IsPlain a → complete_lines (a +++ b) ≡ after_text a (complete_lines b)
unfolding complete_lines after_text
complete_lines-after String.[] b h = whole (complete_lines b)
  where
    whole : (p : List String × String) → p ≡ after_text "" p
    whole ([], rest) = refl
    whole (l ∷ ls, rest) = refl
complete_lines-after (String.◌∷◌ c a) b h =
    let (other, plain) = IsPlain-cons c a h in
    rw other
      (ap (with_char (prepend c "")) (complete_lines-after a b plain) ∙ step (complete_lines b))
  where
    step :
        (p : List String × String)
        → with_char (prepend c "") (after_text a p) ≡ after_text (prepend c a) p
    step ([], rest) = refl
    step (l ∷ ls, rest) = refl

plain_complete : (a : String) → IsPlain a → complete_lines a ≡ ([], a)
unfolding complete_lines
plain_complete String.[] h = refl
plain_complete (String.◌∷◌ c a) h =
    let (other, plain) = IsPlain-cons c a h in
    rw other (ap (with_char (prepend c "")) (plain_complete a plain))

-- A rest holds no newline.
rest-IsPlain : (a : String) → IsPlain (complete_lines a).1
unfolding complete_lines
rest-IsPlain String.[] = refl
rest-IsPlain (String.◌∷◌ c a) = elim (Bool-cases (code c == 10)) [
  | inl newline ↦ rw newline (rest-IsPlain a)
  | inr other ↦ rw other (step (complete_lines a) other (rest-IsPlain a))
]
  where
    step :
        (p : List String × String)
        → (code c == 10) ≡ false
        → IsPlain p.1
        → IsPlain (with_char (prepend c "") p).1
    step ([], rest) other h = rw (other, plain_complete rest h) refl
    step (l ∷ ls, rest) other h = h

yield_lines-append :
    (ls ms : List String) (number : ℕ) (next : ℕ → Lines)
    → yield_lines (ls ++ ms) number next ≡ yield_lines ls number (λ n. yield_lines ms n next)
unfolding yield_lines
yield_lines-append [] ms number next = refl
yield_lines-append (l ∷ ls) ms number next = elim (Bool-cases (too_long l)) [
  | inl long ↦ rw long refl
  | inr fits ↦ rw fits (ap (line l (number + 1)) (yield_lines-append ls ms (number + 1) next))
]

not_empty : (s : String) → too_long s ≡ true → (s === "") ≡ false
unfolding too_long utf8
not_empty s long = elim (Bool-cases (s === "")) [
  | inr n ↦ n
  | inl e ↦ cc (subst (λ t. too_long t ≡ true) (===→≡ s "" e) long)
]

-- A text that begins with a line that is too long is refused at that line.
refused :
    (pending more : String) (number : ℕ)
    → IsPlain pending
    → too_long pending ≡ true
    → lines_of (pending +++ more) number ≡ thrown (line_too_long (number + 1))
unfolding lines_of after_text yield_lines last_line
refused pending more number plain long =
    rw (complete_lines-after pending more plain) (at (complete_lines more))
  where
    at :
        (p : List String × String)
        → yield_lines (after_text pending p).0 number (last_line (after_text pending p).1)
          ≡ thrown (line_too_long (number + 1))
    at ([], rest) =
        let l = too_long-append pending rest long in rw (not_empty (pending +++ rest) l, l) refl
    at (l ∷ ls, rest) = rw (too_long-append pending l long) refl

lines_of-append :
    (a b : String) (number : ℕ)
    → lines_of (a +++ b) number
      ≡ yield_lines (complete_lines a).0 number (λ m. lines_of ((complete_lines a).1 +++ b) m)
unfolding lines_of joined
lines_of-append a b number =
    ap (λ p. yield_lines p.0 number (last_line p.1)) (complete_lines-append a b)
    ∙ yield_lines-append (complete_lines a).0 (complete_lines ((complete_lines a).1 +++ b)).0 number
        (last_line (complete_lines ((complete_lines a).1 +++ b)).1)

read_from :
    (reads : Reads) (pending : String) (number total : ℕ)
    → EndsPlain reads
    → IsPlain pending
    → read_lines none reads pending number total ≡ lines_of (pending +++ whole_text reads) number
unfolding read_lines lines_of yield_lines after_text last_line
read_from broken pending number total ends plain = absurd ends
read_from (ended t) pending number total ends plain =
    rw (complete_lines-after pending t plain, plain_complete t ends) refl
read_from (chunk n t more) pending number total ends plain =
    ap (yield_lines after.0 number) (
      fun_ext (
        next (λ m.
          read_from more (complete_lines (pending +++ t)).1 m (total + n) ends
            (rest-IsPlain (pending +++ t)))))
    ∙ (sym (lines_of-append (pending +++ t) (whole_text more) number)
        ∙ ap (λ s. lines_of s number) (+++_assoc pending t (whole_text more)))
  where
    after : List String × String
    after = complete_lines (pending +++ t)

    next :
        ((m : ℕ)
          → read_lines none more after.1 m (total + n) ≡ lines_of (after.1 +++ whole_text more) m)
        → (m : ℕ)
        → (if too_long after.1
            then thrown (line_too_long (m + 1))
            else read_lines none more after.1 m (total + n))
          ≡ lines_of (after.1 +++ whole_text more) m
    next ih m = elim (Bool-cases (too_long after.1)) [
      | inl long ↦
          rw long (sym (refused after.1 (whole_text more) m (rest-IsPlain (pending +++ t)) long))
      | inr fits ↦ rw fits (ih m)
    ]

-- A file that is read to its end, where the decoder gives no newline of its own, gives the lines of
-- its whole text, wherever the reads cut it: each line with its number, up to the first that is too
-- long, which is refused by its number even where it is met before its end has been read.
pub read_lines-lines_of :
    (reads : Reads) → EndsPlain reads → read_lines none reads "" 0 0 ≡ lines_of (whole_text reads) 0
unfolding complete_lines
read_lines-lines_of reads ends = read_from reads "" 0 0 ends refl
