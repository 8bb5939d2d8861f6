-- ===== src/Privacy/SchemaIssues.antt =====
-- conformance/src/format-errors.ts: the errors of a compiled schema as issues. Of the parameters of an
-- error, those that the code reads are fields; a text among them is a text or missing.
pub mod Paths
use open_audit_model.Common.{
  String, not, ◌||◌, Option, none, some, List, [], ◌∷◌, if◌then◌else◌, value_or, ◌===◌, includes,
  ◌+++◌,
}
use open_audit_model.Json.{Value, Items, cons, nil, undef}
use open_audit_model.Json.Pointer.{pointer_segment}
use open_audit_model.Json.Stringify.{print_value}
use open_audit_model.Integrity.Findings.{ValidationIssue}
use open_audit_model.Privacy.Platform.{Platform}
use open_audit_model.Privacy.RedactKey.{redact_key, redact_pointer}

-- `ErrorObject` of Ajv, as far as the code reads it.
pub record ErrorObject : Type 0 where
  pub keyword : String
  pub instance_path : String
  pub message : Option String
  pub property_name : Option String
  pub missing_property : Option String
  pub dependent_property : Option String
  pub additional_property : Option String
  pub invalid_property_name : Option String
  pub allowed_values : Option Items
  pub allowed_value : Value
  pub pattern_text : Option String
  pub format_name : Option String

-- `String(value)` of a text or of `undefined`
abbrev shown_text : Option String → String
shown_text none = "undefined"
shown_text (some s) = s

-- `` `${JSON.stringify(value)}` ``
abbrev shown_value : Value → String
shown_value undef = "undefined"
shown_value v = print_value v

-- What `join` makes of an element's `JSON.stringify(value)`.
abbrev json_text : Value → String
json_text undef = ""
json_text v = print_value v

-- `.map((value) => JSON.stringify(value)).join(", ")`
abbrev listed : Items → String
listed nil = ""
listed (cons v nil) = json_text v
listed (cons v (cons w vs)) = json_text v +++ (", " +++ listed (cons w vs))

abbrev allowed_detail : Option Items → Option String
allowed_detail none = none
allowed_detail (some vs) = some ("allowed: " +++ listed vs)

-- `joinPointer` of format-errors.ts
abbrev issue_pointer : String → Option String → String
issue_pointer base none = if base === "" then "/" else base
issue_pointer base (some property) = base +++ ("/" +++ pointer_segment property)

-- `error.propertyName`, or for `propertyNames` the parameter
abbrev offending_name : ErrorObject → Option String
offending_name error = elim error.property_name [
  | some name ↦ some name
  | none ↦ if error.keyword === "propertyNames" then error.invalid_property_name else none
]

-- The path of an issue, before it is redacted.
unfoldable pub issue_path : ErrorObject → String
issue_path error =
    if error.keyword === "required" || error.keyword === "dependentRequired"
    then issue_pointer error.instance_path error.missing_property
    else if error.keyword === "additionalProperties"
    then issue_pointer error.instance_path error.additional_property
    else issue_pointer error.instance_path (offending_name error)

-- `` `${path}|${error.keyword}|${message}|${detail ?? ""}` ``
abbrev issue_key : String → String → String × Option String → String
issue_key path keyword (message, detail) =
    path +++ ("|" +++ (keyword +++ ("|" +++ (message +++ ("|" +++ value_or detail "")))))

module _ (platform : Platform) where
  -- `describe`: the message and the detail
  unfoldable pub describe : ErrorObject → String × Option String
  describe error =
      if error.keyword === "required"
      then ("missing required property \"" +++ (shown_text error.missing_property +++ "\""), none)
      else if error.keyword === "dependentRequired"
      then (
        "missing property \""
            +++ (shown_text error.missing_property
                +++ ("\", which is required when \""
                    +++ (shown_text error.dependent_property +++ "\" is present"))),
        none,
      )
      else if error.keyword === "additionalProperties"
      then (
        "unknown property \""
            +++ (redact_key platform (shown_text error.additional_property)
                +++ "\" is not permitted here"),
        some
            "core objects reject unknown properties; use metadata, extensions or attributes instead",
      )
      else if error.keyword === "propertyNames"
      then (
        "property name \""
            +++ (redact_key platform (shown_text error.invalid_property_name)
                +++ "\" does not follow the required naming rule"),
        none,
      )
      else if error.keyword === "enum"
      then ("value is not one of the permitted values", allowed_detail error.allowed_values)
      else if error.keyword === "const"
      then (
        "value does not equal the required constant",
        some ("expected: " +++ shown_value error.allowed_value),
      )
      else if error.keyword === "pattern"
      then (
        "value does not match the required pattern",
        some ("pattern: " +++ shown_text error.pattern_text),
      )
      else if error.keyword === "format"
      then ("value is not a valid \"" +++ (shown_text error.format_name +++ "\" value"), none)
      else if error.keyword === "if"
      then (
        "value does not satisfy a conditional requirement of the schema",
        some "see the accompanying issues for the specific requirement",
      )
      else if error.keyword === "not"
      then ("value is explicitly forbidden by the schema", none)
      else (value_or error.message "failed validation", none)

  -- The issue that `issues.push` adds.
  abbrev issue_of : ErrorObject → ValidationIssue
  issue_of error = record {
    path = redact_pointer platform (issue_path error);
    message = (describe error).0;
    keyword = error.keyword;
    detail = (describe error).1;
  }

  abbrev pub key_of : ErrorObject → String
  key_of error = issue_key (issue_path error) error.keyword (describe error)

  -- The loop of `toIssues`, with the keys that it has seen.
  unfoldable pub issues_from : List String → List ErrorObject → List ValidationIssue
  issues_from seen [] = []
  issues_from seen (error ∷ errors) =
      let key = key_of error in
      let skipped = issues_from seen errors in
      let kept = issue_of error ∷ issues_from (key ∷ seen) errors in
      if includes seen key then skipped else kept

  -- `toIssues`
  unfoldable pub to_issues : List ErrorObject → List ValidationIssue
  to_issues errors = issues_from [] errors
