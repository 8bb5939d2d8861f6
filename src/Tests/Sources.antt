-- ===== src/Tests/Sources.antt =====
-- A file of JSON Lines that three reads cut in the middle of its lines.
use open_audit_model.Common.{
  ◌≤◌, String, ◌≡◌, refl, Bool, true, none, some, [], ◌∷◌, if◌then◌else◌, length, All, trim_start,
  trim_end, trim, ◌===◌, utf8,
}
use open_audit_model.Json.{cons, nil, null, arr, str}
use open_audit_model.Mcp.OutputSafety.{exceeds_depth}
use open_audit_model.Sources.{
  complete_lines, yield_lines, last_line, too_long, read_lines, nested_too_deep, some_too_deep,
  field_too_deep, Reads, chunk, ended, line, finished,
}
use open_audit_model.Sources.Chunks.{EndsPlain, lines_of, read_lines-lines_of}
use open_audit_model.Sources.Stream.{
  stream_lines, stream_document, stream_file, expand_input_paths, stream_event_documents,
  load_event_documents, collect_items, numbered, line_not_json, Host,
}
use open_audit_model.Sources.Depth.{
  nested_too_deep-exceeds_depth, IsCanonicalizable, stream_file-IsCanonicalizable,
}
use open_audit_model.Sources.Failures.{FailsLast, load_event_documents-FailsLast}

abbrev reads : Reads
reads = chunk 3 "o\nn" (chunk 4 "e\n\nt" (chunk 2 "wo" (ended "")))

read_reads :
    read_lines none reads "" 0 0 ≡ line "o" 1 (line "ne" 2 (line "" 3 (line "two" 4 finished)))
unfolding read_lines complete_lines yield_lines last_line too_long utf8
read_reads = refl

reads-EndsPlain : EndsPlain reads
unfolding complete_lines
reads-EndsPlain = refl

read_lines-lines_of_example : read_lines none reads "" 0 0 ≡ lines_of "o\nne\n\ntwo" 0
read_lines-lines_of_example = read_lines-lines_of reads reads-EndsPlain

-- A host whose parser reads one word.
abbrev host : Host
host = record {
  extension = λ file. if file === "log.jsonl" then ".jsonl" else ".json";
  open_lines = λ file. some (9, reads);
  read_text = λ file. some "one";
  parse_json = λ text. if text === "two" then none else some (arr (cons (str text) nil));
  directory = λ file. if file === "logs" then some ("log.jsonl" ∷ "notes.txt" ∷ []) else none;
  join_path = λ folder entry. entry;
}

loaded_items : load_event_documents host ("log.jsonl" ∷ "a.json" ∷ []) ≡ record {
  documents =
      numbered "log.jsonl" 1 (arr (cons (str "o") nil))
      ∷ numbered "log.jsonl" 2 (arr (cons (str "ne") nil))
      ∷ numbered "a.json" 0 (str "one")
      ∷ [];
  failures = ("log.jsonl", line_not_json 4) ∷ [];
}
unfolding load_event_documents stream_event_documents expand_input_paths stream_file stream_lines
    stream_document collect_items read_lines complete_lines yield_lines last_line too_long
    nested_too_deep some_too_deep field_too_deep utf8 trim trim_start trim_end
loaded_items = refl

nested_too_deep-exceeds_depth_example :
    nested_too_deep (arr (cons null nil)) 0 ≡ exceeds_depth (arr (cons null nil)) 200
nested_too_deep-exceeds_depth_example = nested_too_deep-exceeds_depth (arr (cons null nil))

stream_file-IsCanonicalizable_example :
    All (IsCanonicalizable host) (stream_file host true "log.jsonl")
stream_file-IsCanonicalizable_example = stream_file-IsCanonicalizable host true "log.jsonl"

load_event_documents-FailsLast_example :
    ((whole : Bool) (file : String) → FailsLast (stream_file host whole file))
    × (length (load_event_documents host ("log.jsonl" ∷ "a.json" ∷ [])).failures
        ≤ length (expand_input_paths host ("log.jsonl" ∷ "a.json" ∷ [])))
load_event_documents-FailsLast_example =
    load_event_documents-FailsLast host ("log.jsonl" ∷ "a.json" ∷ [])
