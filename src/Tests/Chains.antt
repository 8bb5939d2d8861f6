-- ===== src/Tests/Chains.antt =====
-- Three linked events, and their chain.
use open_audit_model.Common.{
  ℕ, String, ◌≡◌, refl, true, false, Option, none, some, List, [], ◌∷◌, ◌++◌, take, Sign, sort,
  utf8, sym, All, some_inj, ≡→===, true-ne-false,
}
use open_audit_model.Json.{Value, field, end, obj, str, num, nat}
use open_audit_model.Integrity.Hex.{
  hex_pairs, is_hex_digest, from_hex, to_hex, bytes_equal, digests_equal,
}
use open_audit_model.Integrity.Canonicalize.{canonicalize, assert_json_value}
use open_audit_model.Integrity.Digest.{build_digest_input, digest_with, calculate_digest}
use open_audit_model.Integrity.Event.{check_signature, verify_event_integrity}
use open_audit_model.Integrity.Chain.{ChainMember, ChainEventInput}
use open_audit_model.Integrity.Chain.Verify.{ordered, verify_one_chain}
use open_audit_model.Integrity.Chain.Intake.{add_chain_event, finish_chains, verify_chains}
use open_audit_model.Integrity.Chain.Intact.{IsIntact}
use open_audit_model.Integrity.Chain.Verdict.{verify_one_chain-intact_iff}
use open_audit_model.Integrity.Chain.Tamper.{verify_one_chain-take, verify_one_chain-removed}
use open_audit_model.Integrity.Chain.Head.{verify_one_chain-head}
use open_audit_model.Integrity.Chain.Report.{declaring, DeclaresChain, verify_chains-intact_iff}
use open_audit_model.Tests.{engine, accepts_all}

abbrev pub no_collation : String → String → Sign
no_collation s t = Sign.zero

abbrev member_at : ℕ → String → String → Option String → ChainMember
member_at n label hash previous = record {
  label = label;
  digest_findings = [];
  sequence = some n;
  hash = some hash;
  previous_hash = previous;
  hash_algorithm = some "SHA-256";
  canonicalization = some "RFC8785";
  batch_id = none;
}

abbrev first : ChainMember
first = member_at 1 "a" "a1" none

abbrev second : ChainMember
second = member_at 2 "b" "b2" (some "a1")

abbrev third : ChainMember
third = member_at 4 "c" "c3" (some "b2")

-- Supplied out of order.
abbrev supplied : List ChainMember
supplied = third ∷ first ∷ second ∷ []

supplied_intact : (verify_one_chain no_collation "log" supplied []).intact ≡ true
unfolding verify_one_chain sort digests_equal is_hex_digest hex_pairs from_hex bytes_equal
supplied_intact = refl

supplied-ordered : ordered no_collation supplied ≡ [] ++ first ∷ second ∷ third ∷ []
unfolding sort
supplied-ordered = refl

verify_one_chain-intact_iff_example : IsIntact no_collation supplied
verify_one_chain-intact_iff_example =
    (verify_one_chain-intact_iff no_collation "log" supplied []).0 supplied_intact

verify_one_chain-take_example :
    (verify_one_chain no_collation "log" (take 2 (ordered no_collation supplied)) []).intact ≡ true
verify_one_chain-take_example =
    verify_one_chain-take no_collation "log" supplied [] 2 supplied_intact

verify_one_chain-removed_example :
    (verify_one_chain no_collation "log" ([] ++ first ∷ third ∷ []) []).intact ≡ false
verify_one_chain-removed_example =
    verify_one_chain-removed no_collation "log" supplied [] [] first second third [] supplied_intact
      supplied-ordered (λ e. true-ne-false (sym (≡→=== "a1" "b2" (some_inj e))))

verify_one_chain-head_example :
    ((verify_one_chain no_collation "log" supplied []).event_count ≡ 3)
    × ((verify_one_chain no_collation "log" supplied []).last_sequence ≡ some 4)
    × ((verify_one_chain no_collation "log" supplied []).head_hash ≡ some "c3")
verify_one_chain-head_example =
    verify_one_chain-head no_collation "log" supplied [] (first ∷ second ∷ []) third supplied_intact
      supplied-ordered

abbrev pub genesis : Value
genesis = obj (
    field "sequence" (num (nat 1)) (
      field "integrity"
        (obj (
          field "canonicalization" (str "RFC8785") (
            field "hashAlgorithm" (str "SHA-256") (
              field "chainId" (str "log") (
                field "hash"
                  (str "8080808080808080808080808080808080808080808080808080808080808080") end)))))
        end))

abbrev pub inputs : List ChainEventInput
inputs = record { label = "a"; event = genesis } ∷ []

inputs_intact : (verify_chains no_collation engine inputs accepts_all none).intact ≡ true
unfolding verify_chains finish_chains add_chain_event verify_one_chain sort verify_event_integrity
    calculate_digest digest_with build_digest_input canonicalize assert_json_value to_hex utf8
    digests_equal is_hex_digest hex_pairs from_hex bytes_equal check_signature
inputs_intact = refl

verify_chains-intact_iff_example :
    All (DeclaresChain accepts_all) inputs
    × ((chain_id : String)
        → IsIntact no_collation (declaring engine accepts_all none chain_id inputs))
verify_chains-intact_iff_example =
    (verify_chains-intact_iff no_collation engine inputs accepts_all none).0 inputs_intact
