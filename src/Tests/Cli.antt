-- ===== src/Tests/Cli.antt =====
-- The command line on a file that holds one sealed event.
use open_audit_model.Common.{◌≡◌, refl, false, Option, none, some, [], ◌∷◌, Sign, utf8, sym, ◌∙◌}
use open_audit_model.Integrity.Hex.{
  hex_pairs, is_hex_digest, from_hex, to_hex, bytes_equal, digests_equal,
}
use open_audit_model.Integrity.Digest.{build_digest_input, digest_with, calculate_digest}
use open_audit_model.Integrity.Canonicalize.{assert_json_value, canonicalize}
use open_audit_model.Integrity.Event.{verify_event_integrity, check_signature}
use open_audit_model.Integrity.Signature.{PublicKey}
use open_audit_model.Privacy.Platform.{Platform}
use open_audit_model.Sources.{nested_too_deep, some_too_deep, field_too_deep}
use open_audit_model.Sources.Stream.{
  stream_document, stream_file, expand_input_paths, stream_event_documents, Host,
}
use open_audit_model.Cli.{exit_ok, drain, Machine}
use open_audit_model.Cli.Commands.{stream_input, run_verify_integrity}
use open_audit_model.Cli.Run.{run, Arguments}
use open_audit_model.Cli.Passed.{HasPassed}
use open_audit_model.Cli.Exits.{IsKeyFor, run-HasPassed}
use open_audit_model.Cli.Drain.{passes}
use open_audit_model.Cli.Reads.{WasRead, run-WasRead}
use open_audit_model.Tests.{engine, accepts_all}
use open_audit_model.Tests.Events.{sealed_event}

abbrev host : Host
host = record {
  extension = λ file. ".json";
  open_lines = λ file. none;
  read_text = λ file. some "one";
  parse_json = λ text. some sealed_event;
  directory = λ file. none;
  join_path = λ folder entry. entry;
}

abbrev platform : Platform
platform = record {
  parse_url = λ text. none;
  to_lower_case = λ text. text;
  parse_base64_json = λ text. none;
  reaches_threshold = λ text. false;
  locale_compare = λ s t. Sign.zero;
}

abbrev machine : Machine
machine = record {
  host = host;
  platform = platform;
  engine = engine;
  path_error = λ inputs. false;
  display_path = λ file. file;
  create_validator = some accepts_all;
  create_checkpoint_validator = none;
  create_proof_validator = none;
  read_json_file = λ file. none;
  load_profile = λ name. none;
  read_public_key = λ file. none;
}

abbrev args : Arguments
args = record {
  help = false;
  version = false;
  format = none;
  profile = none;
  checkpoint = none;
  proof = none;
  public_key = none;
  positionals = "verify-integrity" ∷ "a.json" ∷ [];
}

exits : run machine (some args) ≡ exit_ok
unfolding run run_verify_integrity stream_input drain stream_event_documents expand_input_paths
    stream_file stream_document nested_too_deep some_too_deep field_too_deep verify_event_integrity
    calculate_digest digest_with build_digest_input canonicalize assert_json_value to_hex utf8
    digests_equal is_hex_digest hex_pairs from_hex bytes_equal check_signature
exits = refl

run-HasPassed_example :
    (key : Option PublicKey) × IsKeyFor machine args "verify-integrity" key
    × HasPassed machine args ("a.json" ∷ []) key "verify-integrity"
run-HasPassed_example =
    run-HasPassed machine args "verify-integrity" ("a.json" ∷ []) refl refl refl refl exits

run-WasRead_example : WasRead machine ("a.json" ∷ [])
run-WasRead_example =
    run-WasRead machine args "verify-integrity" ("a.json" ∷ []) refl refl refl refl
      (λ e. passes (sym exits ∙ e))
