-- ===== src/Sources/Depth.antt =====
-- What is known of the events that `streamFile` yields.
use open_audit_model.Common.{
  ℕ, ◌+◌, String, ◌≡◌, refl, sym, ap, ◌∙◌, inl, inr, Bool, true, false, ◌&&◌, Option, none, some,
  List, [], ◌∷◌, arith, ltb, if◌then◌else◌, Bool-cases, All, trim, ◌===◌, includes,
}
use open_audit_model.Json.{
  Fields, field, end, Items, cons, nil, Value, undef, null, obj, arr, num, bool, str,
}
use open_audit_model.Json.Shape.{IsJson}
use open_audit_model.Integrity.Canonicalize.{assert_json_value}
use open_audit_model.Integrity.Canonicalize.Accepts.{assert_json_value-eq-none_iff}
use open_audit_model.Mcp.OutputSafety.{walk, walk_items, walk_fields, exceeds_depth}
use open_audit_model.Mcp.Limits.{or_iff, exceeds_depth-height}
use open_audit_model.Sources.{
  max_document_bytes, nested_too_deep, some_too_deep, field_too_deep, Reads, Lines, line, finished,
  thrown,
}
use open_audit_model.Sources.Stream.{
  json_lines_extensions, numbered, stream_lines, stream_items, any_too_deep, single,
  stream_document, stream_json, stream_opened, stream_file, document_not_json, line_not_json,
  line_too_deep, LoadedItem, loaded, failure, Host,
}

mutual
  unfolding nested_too_deep some_too_deep field_too_deep walk walk_items walk_fields

  same_walk : (v : Value) (d : ℕ) → nested_too_deep v d ≡ walk 200 v d
  same_walk null d = refl
  same_walk undef d = refl
  same_walk (bool b) d = refl
  same_walk (num n) d = refl
  same_walk (str s) d = refl
  same_walk (arr xs) d = ap (λ b. if ltb 200 d then true else b) (same_items xs d)
  same_walk (obj fs) d = ap (λ b. if ltb 200 d then true else b) (same_fields fs d)

  same_items : (xs : Items) (d : ℕ) → some_too_deep xs (d + 1) ≡ walk_items 200 xs d
  same_items nil d = refl
  same_items (cons v xs) d = cc (same_walk v (d + 1), same_items xs d)

  same_fields : (fs : Fields) (d : ℕ) → field_too_deep fs (d + 1) ≡ walk_fields 200 fs d
  same_fields end d = refl
  same_fields (field k v fs) d = cc (same_walk v (d + 1), same_fields fs d)

-- The command line and the server test the depth of a value alike: `nestedTooDeep` is `exceedsDepth`
-- at the limit of the canonicalization.
pub nested_too_deep-exceeds_depth : (v : Value) → nested_too_deep v 0 ≡ exceeds_depth v 200
unfolding exceeds_depth
nested_too_deep-exceeds_depth v = same_walk v 0

-- The events of a stream are nested at most 200 deep.
abbrev IsShallow : LoadedItem → Type 0
IsShallow (loaded d) = nested_too_deep d.event 0 ≡ false
IsShallow (failure file e) = Unit

module _ (host : Host) where
  stream_lines-IsShallow : (file : String) (ls : Lines) → All IsShallow (stream_lines host file ls)
  unfolding stream_lines
  stream_lines-IsShallow file finished = tt
  stream_lines-IsShallow file (thrown e) = (tt, tt)
  stream_lines-IsShallow file (line text n more) = elim (Bool-cases (trim text === "")) [
    | inl blank ↦ rw blank (stream_lines-IsShallow file more)
    | inr held ↦ rw held (event (host.parse_json (trim text)) (stream_lines-IsShallow file more))
  ]
    where
      event :
          (o : Option Value)
          → All IsShallow (stream_lines host file more)
          → All IsShallow (elim o [
            | none ↦ failure file (line_not_json n) ∷ []
            | some event ↦
                if nested_too_deep event 0
                then failure file (line_too_deep n) ∷ []
                else loaded (numbered file n event) ∷ stream_lines host file more
          ])
      event none ih = (tt, tt)
      event (some v) ih = elim (Bool-cases (nested_too_deep v 0)) [
        | inl deep ↦ rw deep (tt, tt)
        | inr shallow ↦ rw shallow (shallow, ih)
      ]

  items-IsShallow :
      (file : String) (n : ℕ) (xs : Items)
      → any_too_deep host xs ≡ false
      → All IsShallow (stream_items host file n xs)
  items-IsShallow file n nil e = tt
  items-IsShallow file n (cons v xs) e =
      let (a, b) = (or_iff _ _).0 e in (a, items-IsShallow file (n + 1) xs b)

  single-IsShallow : (file : String) (v : Value) → All IsShallow (single host file v)
  single-IsShallow file v = elim (Bool-cases (nested_too_deep v 0)) [
    | inl deep ↦ rw deep (tt, tt)
    | inr shallow ↦ rw shallow (shallow, tt)
  ]

  document-IsShallow : (file : String) (v : Value) → All IsShallow (stream_document host file v)
  unfolding stream_document
  document-IsShallow file (arr xs) = elim (Bool-cases (any_too_deep host xs)) [
    | inl deep ↦ rw deep (tt, tt)
    | inr shallow ↦ rw shallow (items-IsShallow file 0 xs shallow)
  ]
  document-IsShallow file null = single-IsShallow file null
  document-IsShallow file undef = single-IsShallow file undef
  document-IsShallow file (bool b) = single-IsShallow file (bool b)
  document-IsShallow file (num n) = single-IsShallow file (num n)
  document-IsShallow file (str s) = single-IsShallow file (str s)
  document-IsShallow file (obj fs) = single-IsShallow file (obj fs)

  json-IsShallow : (file : String) (o : Option String) → All IsShallow (stream_json host file o)
  json-IsShallow file none = (tt, tt)
  json-IsShallow file (some text) = parsed (host.parse_json text)
    where
      parsed :
          (o : Option Value)
          → All IsShallow (elim o [
            | none ↦ failure file document_not_json ∷ []
            | some v ↦ stream_document host file v
          ])
      parsed none = (tt, tt)
      parsed (some v) = document-IsShallow file v

  opened-IsShallow :
      (file : String) (whole : Bool) (o : Option (ℕ × Reads))
      → All IsShallow (stream_opened host file whole o)
  opened-IsShallow file whole none = (tt, tt)
  opened-IsShallow file whole (some (size, reads)) =
      elim (Bool-cases (whole && ltb max_document_bytes size)) [
        | inl large ↦ rw large (tt, tt)
        | inr fits ↦ rw fits (stream_lines-IsShallow file _)
      ]

  stream_file-IsShallow :
      (whole : Bool) (file : String) → All IsShallow (stream_file host whole file)
  unfolding stream_file
  stream_file-IsShallow whole file =
      elim (Bool-cases (includes json_lines_extensions (host.extension file))) [
        | inl lines ↦ rw lines (opened-IsShallow file whole (host.open_lines file))
        | inr other ↦ rw other (json-IsShallow file (host.read_text file))
      ]

  -- An item of a stream: no event that JSON can represent is refused by the canonicalization.
  abbrev pub IsCanonicalizable : LoadedItem → Type 0
  IsCanonicalizable (loaded d) = IsJson d.event → assert_json_value d.event "" 0 ≡ none
  IsCanonicalizable (failure file e) = Unit

  canonicalizable : (is : List LoadedItem) → All IsShallow is → All IsCanonicalizable is
  canonicalizable [] h = tt
  canonicalizable (failure file e ∷ is) (t, h) = (tt, canonicalizable is h)
  canonicalizable (loaded d ∷ is) (s, h) = (
    λ j. (assert_json_value-eq-none_iff d.event "" 0).1 (
      j,
      omega (
        arith,
        (exceeds_depth-height d.event 200).0 (sym (nested_too_deep-exceeds_depth d.event) ∙ s),
      ),
    ),
    canonicalizable is h,
  )

  -- Whatever a file holds, each event that is read from it, and that JSON can represent, is one that
  -- the canonicalization does not refuse.
  pub stream_file-IsCanonicalizable :
      (whole : Bool) (file : String) → All IsCanonicalizable (stream_file host whole file)
  stream_file-IsCanonicalizable whole file = canonicalizable _ (stream_file-IsShallow whole file)
