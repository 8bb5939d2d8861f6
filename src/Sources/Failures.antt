-- ===== src/Sources/Failures.antt =====
-- Where a stream fails.
use open_audit_model.Common.{
  ℕ, ◌+◌, ◌≤◌, String, ◌≡◌, refl, inl, inr, Bool, true, ◌&&◌, Option, none, some, List, [], ◌∷◌,
  ◌++◌, arith, ltb, if◌then◌else◌, Bool-cases, length, flat_map, trim, ◌===◌, includes,
}
use open_audit_model.Json.{Items, cons, nil, Value, undef, null, obj, arr, num, bool, str}
use open_audit_model.Sources.{
  max_document_bytes, nested_too_deep, Reads, Lines, line, finished, thrown,
}
use open_audit_model.Sources.Stream.{
  json_lines_extensions, numbered, collect_items, stream_lines, stream_items, any_too_deep, single,
  stream_document, stream_json, stream_opened, stream_file, expand_input_paths,
  stream_event_documents, load_event_documents, document_not_json, line_not_json, line_too_deep,
  LoadedItem, loaded, failure, Host,
}

-- A failure is the last item.
abbrev pub FailsLast : List LoadedItem → Type 0
FailsLast [] = Unit
FailsLast (failure file e ∷ is) = is ≡ []
FailsLast (loaded d ∷ is) = FailsLast is

abbrev pub failure_count : List LoadedItem → ℕ
failure_count is = length (collect_items is).failures

module _ (host : Host) where
  lines-FailsLast : (file : String) (ls : Lines) → FailsLast (stream_lines host file ls)
  unfolding stream_lines
  lines-FailsLast file finished = tt
  lines-FailsLast file (thrown e) = refl
  lines-FailsLast file (line text n more) = elim (Bool-cases (trim text === "")) [
    | inl blank ↦ rw blank (lines-FailsLast file more)
    | inr held ↦ rw held (event (host.parse_json (trim text)) (lines-FailsLast file more))
  ]
    where
      event :
          (o : Option Value)
          → FailsLast (stream_lines host file more)
          → FailsLast (elim o [
            | none ↦ failure file (line_not_json n) ∷ []
            | some event ↦
                if nested_too_deep event 0
                then failure file (line_too_deep n) ∷ []
                else loaded (numbered file n event) ∷ stream_lines host file more
          ])
      event none ih = refl
      event (some v) ih = elim (Bool-cases (nested_too_deep v 0)) [
        | inl deep ↦ rw deep refl
        | inr shallow ↦ rw shallow ih
      ]

  items-FailsLast : (file : String) (n : ℕ) (xs : Items) → FailsLast (stream_items host file n xs)
  items-FailsLast file n nil = tt
  items-FailsLast file n (cons v xs) = items-FailsLast file (n + 1) xs

  single-FailsLast : (file : String) (v : Value) → FailsLast (single host file v)
  single-FailsLast file v = elim (Bool-cases (nested_too_deep v 0)) [
    | inl deep ↦ rw deep refl
    | inr shallow ↦ rw shallow tt
  ]

  document-FailsLast : (file : String) (v : Value) → FailsLast (stream_document host file v)
  unfolding stream_document
  document-FailsLast file (arr xs) = elim (Bool-cases (any_too_deep host xs)) [
    | inl deep ↦ rw deep refl
    | inr shallow ↦ rw shallow (items-FailsLast file 0 xs)
  ]
  document-FailsLast file null = single-FailsLast file null
  document-FailsLast file undef = single-FailsLast file undef
  document-FailsLast file (bool b) = single-FailsLast file (bool b)
  document-FailsLast file (num n) = single-FailsLast file (num n)
  document-FailsLast file (str s) = single-FailsLast file (str s)
  document-FailsLast file (obj fs) = single-FailsLast file (obj fs)

  json-FailsLast : (file : String) (o : Option String) → FailsLast (stream_json host file o)
  json-FailsLast file none = refl
  json-FailsLast file (some text) = parsed (host.parse_json text)
    where
      parsed :
          (o : Option Value)
          → FailsLast (elim o [
            | none ↦ failure file document_not_json ∷ []
            | some v ↦ stream_document host file v
          ])
      parsed none = refl
      parsed (some v) = document-FailsLast file v

  opened-FailsLast :
      (file : String) (whole : Bool) (o : Option (ℕ × Reads))
      → FailsLast (stream_opened host file whole o)
  opened-FailsLast file whole none = refl
  opened-FailsLast file whole (some (size, reads)) =
      elim (Bool-cases (whole && ltb max_document_bytes size)) [
        | inl large ↦ rw large refl
        | inr fits ↦ rw fits (lines-FailsLast file _)
      ]

  -- Whatever a file holds, a failure is the last item that is read from it.
  stream_file-FailsLast : (whole : Bool) (file : String) → FailsLast (stream_file host whole file)
  unfolding stream_file
  stream_file-FailsLast whole file =
      elim (Bool-cases (includes json_lines_extensions (host.extension file))) [
        | inl lines ↦ rw lines (opened-FailsLast file whole (host.open_lines file))
        | inr other ↦ rw other (json-FailsLast file (host.read_text file))
      ]

  one_failure :
      (is : List LoadedItem) (others : List LoadedItem)
      → FailsLast is
      → failure_count (is ++ others) ≤ failure_count others + 1
  unfolding collect_items
  one_failure [] others h = omega arith
  one_failure (failure file e ∷ is) others h = rw h (omega arith)
  one_failure (loaded d ∷ is) others h = one_failure is others h

  files_fail :
      (whole : Bool) (files : List String)
      → failure_count (flat_map (stream_file host whole) files) ≤ length files
  unfolding collect_items
  files_fail whole [] = omega arith
  files_fail whole (f ∷ fs) = omega (
    arith,
    one_failure (stream_file host whole f) (flat_map (stream_file host whole) fs)
        (stream_file-FailsLast whole f),
    files_fail whole fs,
  )

  -- A file fails at most once and nothing is read from it afterwards: a failure is the last item of
  -- each stream, and a load reports no more failures than it has files.
  pub load_event_documents-FailsLast :
      (inputs : List String)
      → ((whole : Bool) (file : String) → FailsLast (stream_file host whole file))
        × (length (load_event_documents host inputs).failures
            ≤ length (expand_input_paths host inputs))
  unfolding load_event_documents stream_event_documents
  load_event_documents-FailsLast inputs =
      (stream_file-FailsLast, files_fail true (expand_input_paths host inputs))
