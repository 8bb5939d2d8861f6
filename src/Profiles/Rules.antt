-- ===== src/Profiles/Rules.antt =====
-- conformance/src/profiles/select-rules.ts: which rules govern an event.
use open_audit_model.Common.{
  String, Bool, true, false, not, ◌&&◌, ◌||◌, Option, List, [], ◌∷◌, ◌==◌, if◌then◌else◌, any,
  includes,
}
use open_audit_model.Json.{Value, as_string}
use Prim.Native.Char.{code}
use open_audit_model.Json.Pointer.{resolve_pointer, value_of}
use open_audit_model.Profiles.Types.{ProfileRule, ProfileDefinition}

-- `eventName`
abbrev pub event_name : Value → Option String
event_name event = as_string (value_of (resolve_pointer event "/event/name"))

-- `String.prototype.startsWith`
unfoldable pub starts_with : String → String → Bool
starts_with name String.[] = true
starts_with String.[] (String.◌∷◌ p prefix) = false
starts_with (String.◌∷◌ c name) (String.◌∷◌ p prefix) = code c == code p && starts_with name prefix

-- `ruleMatches`
abbrev pub rule_matches : ProfileRule → String → Bool
rule_matches rule name =
    includes rule.events name || any (λ prefix. starts_with name prefix) rule.event_prefixes

-- The loop of `selectRules`, with the rule identifiers that it has seen.
abbrev pub select_from : List String → List ProfileRule → String → List ProfileRule
select_from seen [] name = []
select_from seen (rule ∷ rules) name =
    let skip = not (rule_matches rule name) || includes seen rule.id in
    let rest = select_from (if skip then seen else rule.id ∷ seen) rules name in
    if skip then rest else rule ∷ rest

-- `selectRules`
unfoldable pub select_rules : ProfileDefinition → String → List ProfileRule
select_rules profile name = select_from [] profile.rules name
