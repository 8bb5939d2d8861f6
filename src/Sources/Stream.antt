-- ===== src/Sources/Stream.antt =====
-- conformance/src/sources.ts: `streamFile` and the functions over its items. `path.extname` and the
-- order and the kind of directory entries are parameters.
use open_audit_model.Common.{
  ℕ, ◌+◌, String, Bool, true, false, ◌&&◌, ◌||◌, Option, none, some, List, [], ◌∷◌, map, ltb,
  if◌then◌else◌, select, flat_map, trim, ◌===◌, includes, decimal, ◌+++◌,
}
use open_audit_model.Json.{Items, cons, nil, Value, arr}
use open_audit_model.Sources.{
  max_document_bytes, read_lines, nested_too_deep, LineError, Reads, Lines, line, finished, thrown,
}

-- What the file system and the JSON parser answer.
pub record Host : Type 0 where
  -- `path.extname(file).toLowerCase()`
  pub extension : String → String
  -- `openRegularFile`, with the size and the reads of the descriptor; `none` is a failure
  pub open_lines : String → Option (ℕ × Reads)
  -- `readTextFile`; `none` is a failure
  pub read_text : String → Option String
  -- `JSON.parse`; `none` is a throw
  pub parse_json : String → Option Value
  -- `statSync(input).isDirectory()`, with the entries in the order of `localeCompare`
  pub directory : String → Option (List String)
  -- `path.join`
  pub join_path : String → String → String

-- `EventDocument`
pub record EventDocument : Type 0 where
  pub file : String
  pub index : Option ℕ
  pub label : String
  pub event : Value

-- The errors of `DocumentLoadFailure`.
pub data LoadError : Type 0 where
  cannot_open cannot_read document_not_json document_too_deep : LoadError
  file_too_large : ℕ → LoadError
  line_not_json line_too_deep : ℕ → LoadError
  line_failure : LineError → LoadError

-- `LoadedItem`
pub data LoadedItem : Type 0 where
  loaded : EventDocument → LoadedItem
  failure : String → LoadError → LoadedItem

-- `DocumentLoadResult`
pub record DocumentLoadResult : Type 0 where
  pub documents : List EventDocument
  pub failures : List (String × LoadError)

-- `JSON_LINES_EXTENSIONS`
abbrev pub json_lines_extensions : List String
json_lines_extensions = ".jsonl" ∷ ".ndjson" ∷ []

-- `EVENT_EXTENSIONS`
abbrev pub event_extensions : List String
event_extensions = ".json" ∷ json_lines_extensions

-- The document of a line, or of an item of an array.
abbrev pub numbered : String → ℕ → Value → EventDocument
numbered file n event = record {
  file = file;
  index = some n;
  label = file +++ ("#" +++ decimal n);
  event = event;
}

-- `collect`
abbrev pub collect_item : LoadedItem → DocumentLoadResult → DocumentLoadResult
collect_item (loaded d) r = record { documents = d ∷ r.documents; failures = r.failures }
collect_item (failure f e) r = record { documents = r.documents; failures = (f, e) ∷ r.failures }

unfoldable pub collect_items : List LoadedItem → DocumentLoadResult
collect_items [] = record { documents = []; failures = [] }
collect_items (i ∷ is) = collect_item i (collect_items is)

module _ (host : Host) where
  open host use {extension, open_lines, read_text, parse_json, directory, join_path}

  -- The loop over the lines of a JSON Lines file.
  unfoldable pub stream_lines : String → Lines → List LoadedItem
  stream_lines file finished = []
  stream_lines file (thrown error) = failure file (line_failure error) ∷ []
  stream_lines file (line text n more) =
      let rest = stream_lines file more in
      if trim text === "" then rest else elim (parse_json (trim text)) [
        | none ↦ failure file (line_not_json n) ∷ []
        | some event ↦
            if nested_too_deep event 0
            then failure file (line_too_deep n) ∷ []
            else loaded (numbered file n event) ∷ rest
      ]

  abbrev pub stream_items : String → ℕ → Items → List LoadedItem
  stream_items file index nil = []
  stream_items file index (cons v xs) =
      loaded (numbered file index v) ∷ stream_items file (index + 1) xs

  abbrev pub any_too_deep : Items → Bool
  any_too_deep nil = false
  any_too_deep (cons v xs) = nested_too_deep v 0 || any_too_deep xs

  abbrev pub single : String → Value → List LoadedItem
  single file v =
      if nested_too_deep v 0
      then failure file document_too_deep ∷ []
      else loaded (record { file = file; index = none; label = file; event = v }) ∷ []

  -- What a parsed document gives: an array holds events, and anything else is one.
  unfoldable pub stream_document : String → Value → List LoadedItem
  stream_document file (arr xs) =
      if any_too_deep xs then failure file document_too_deep ∷ [] else stream_items file 0 xs
  stream_document file v = single file v

  -- `readJsonFile`, and what `streamFile` does with its result
  abbrev pub stream_json : String → Option String → List LoadedItem
  stream_json file none = failure file cannot_read ∷ []
  stream_json file (some text) = elim (parse_json text) [
    | none ↦ failure file document_not_json ∷ []
    | some v ↦ stream_document file v
  ]

  abbrev pub stream_opened : String → Bool → Option (ℕ × Reads) → List LoadedItem
  stream_opened file whole none = failure file cannot_open ∷ []
  stream_opened file whole (some (size, reads)) =
      if whole && ltb max_document_bytes size
      then failure file (file_too_large size) ∷ []
      else stream_lines file
          (read_lines (if whole then some max_document_bytes else none) reads "" 0 0)

  -- `streamFile`; `whole` is `options.wholeFileLimit === true`
  unfoldable pub stream_file : Bool → String → List LoadedItem
  stream_file whole file =
      if includes json_lines_extensions (extension file)
      then stream_opened file whole (open_lines file)
      else stream_json file (read_text file)

  abbrev expand : String → Option (List String) → List String
  expand input none = input ∷ []
  expand input (some entries) =
      map (join_path input) (select (λ e. includes event_extensions (extension e)) entries)

  -- `expandInputPaths`
  unfoldable pub expand_input_paths : List String → List String
  expand_input_paths inputs = flat_map (λ input. expand input (directory input)) inputs

  -- `streamEventDocuments`
  unfoldable pub stream_event_documents : Bool → List String → List LoadedItem
  stream_event_documents whole inputs = flat_map (stream_file whole) (expand_input_paths inputs)

  -- `loadEventDocuments`
  unfoldable pub load_event_documents : List String → DocumentLoadResult
  load_event_documents inputs = collect_items (stream_event_documents true inputs)
