-- ===== src/Tests/Conformance.antt =====
-- A profile of two rules, and an event that it governs.
use open_audit_model.Common.{String, ◌≡◌, refl, true, none, List, [], ◌∷◌, All, Sign, ◌↔◌}
use open_audit_model.Json.{Value, field, end, obj, str}
use open_audit_model.Json.Pointer.{
  replace_pair, decode_reference_token, split, pointer_tokens, is_index, number_of, resolve_token,
  resolve_tokens, resolve_pointer, is_present,
}
use open_audit_model.Profiles.Types.{
  conforming, ProfileRule, ProfileDefinition, ProfileCheckResult, core_invalid,
}
use open_audit_model.Profiles.Rules.{starts_with, select_rules}
use open_audit_model.Profiles.Evaluate.{condition_holds, evaluate_rule}
use open_audit_model.Profiles.Check.{check_profile}
use open_audit_model.Profiles.Coverage.{summarise_coverage}
use open_audit_model.Profiles.Selection.{select_rules-IsSelection, IsSelection}
use open_audit_model.Profiles.Severity.{check_profile-IsCoherent, IsCoherent, CoreFails}
use open_audit_model.Profiles.Totals.{RowBounded, summarise_coverage-bounded}
use open_audit_model.Profiles.Verdict.{CoreValid, check_profile-conforming_iff, Conforms}
use open_audit_model.Tests.{accepts_all}

abbrev rule_of : String → List String → List String → List String → ProfileRule
rule_of id events prefixes paths = record {
  id = id;
  severity = none;
  events = events;
  event_prefixes = prefixes;
  when = none;
  required_paths = paths;
  required_metadata = [];
  required_values = [];
  recommended_paths = "/reason" ∷ [];
}

abbrev profile : ProfileDefinition
profile = record {
  name = "iam";
  version = "1";
  status = "stable";
  core_versions = "1.0" ∷ [];
  rules =
      rule_of "R1" ("role.add" ∷ []) [] ("/actor" ∷ [])
      ∷ rule_of "R2" [] ("role." ∷ []) ("/id" ∷ [])
      ∷ rule_of "R3" ("file.open" ∷ []) [] ("/file" ∷ [])
      ∷ [];
}

abbrev event : Value
event = obj (
    field "id" (str "7") (
      field "specVersion" (str "1.0")
        (field "actor" (str "ann") (field "event" (obj (field "name" (str "role.add") end)) end))))

is_conforming_event : (check_profile event "a" profile accepts_all true).status ≡ conforming
unfolding check_profile resolve_pointer pointer_tokens resolve_token resolve_tokens is_index
    number_of split decode_reference_token replace_pair select_rules starts_with evaluate_rule
    is_present condition_holds
is_conforming_event = refl

check_profile-conforming_iff_example : CoreValid accepts_all true event × Conforms event profile
check_profile-conforming_iff_example =
    (check_profile-conforming_iff event "a" profile accepts_all true).0 is_conforming_event

check_profile-IsCoherent_example :
    IsCoherent (check_profile event "a" profile accepts_all true)
    × (((check_profile event "a" profile accepts_all true).status ≡ core_invalid)
        ↔ CoreFails accepts_all true event)
check_profile-IsCoherent_example = check_profile-IsCoherent event "a" profile accepts_all true

select_rules-IsSelection_example :
    IsSelection profile.rules "role.add" (select_rules profile "role.add")
select_rules-IsSelection_example = select_rules-IsSelection profile "role.add"

abbrev results : List ProfileCheckResult
results = check_profile event "a" profile accepts_all true ∷ []

summarise_coverage-bounded_example :
    All RowBounded (summarise_coverage profile (λ s t. Sign.zero) (event ∷ []) results).per_rule
summarise_coverage-bounded_example =
    summarise_coverage-bounded profile (λ s t. Sign.zero) (event ∷ []) results
