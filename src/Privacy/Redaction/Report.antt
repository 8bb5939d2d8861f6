-- ===== src/Privacy/Redaction/Report.antt =====
-- The paths of what the linter reports, its schema issues included.
use open_audit_model.Common.{
  String, refl, inl, inr, Bool, ◌&&◌, Option, List, [], ◌∷◌, map, ltb, Bool-cases, length, take,
  All, All-append, All-take, includes, All-sort,
}
use open_audit_model.Json.{Value, as_string}
use open_audit_model.Integrity.Findings.{Validator, ValidationIssue}
use open_audit_model.Versions.{
  SpecVersion, versioned_validator, declared_spec_version, not_evaluated, DeclaredSpecVersion,
  supported_version, unsupported_version, malformed_version,
}
use open_audit_model.Privacy.Platform.{Platform}
use open_audit_model.Privacy.Rules.{PrivacyFinding}
use open_audit_model.Privacy.Traverse.{read_path}
use open_audit_model.Privacy.SchemaIssues.{ErrorObject, to_issues}
use open_audit_model.Privacy.SchemaIssues.Paths.{AtRedactedPath, to_issues-AtRedactedPath}
use open_audit_model.Privacy.LintEvent.Report.{
  SchemaIssueLine, shown, further, issue_lines, finding_key, unseen, identified, compare_findings,
  report_of, lint_event,
}
use open_audit_model.Privacy.Redaction.{AtSafePath}
use open_audit_model.Privacy.Redaction.Collected.{collected-Safe}

module _ (platform : Platform) where
  unseen-Safe :
      (seen : List String) (fs : List PrivacyFinding)
      → All (AtSafePath platform) fs
      → All (AtSafePath platform) (unseen seen fs)
  unfolding unseen
  unseen-Safe seen [] h = tt
  unseen-Safe seen (f ∷ fs) (s, h) = elim (Bool-cases (includes seen (finding_key f))) [
    | inl e ↦ rw e (unseen-Safe seen fs h)
    | inr n ↦ rw n (s, unseen-Safe (finding_key f ∷ seen) fs h)
  ]

  identified-Safe :
      (id : Option String) (fs : List PrivacyFinding)
      → All (AtSafePath platform) fs
      → All (AtSafePath platform) (map (identified id) fs)
  identified-Safe id [] h = tt
  identified-Safe id (f ∷ fs) (s, h) = (s, identified-Safe id fs h)

  findings-AtSafePath :
      (event : Value) (label : String) (validator : Validator) (validate_schema : Bool)
      → All
          (AtSafePath platform)
          (lint_event platform event label validator validate_schema).findings
  unfolding lint_event report_of
  findings-AtSafePath event label validator validate_schema =
      elim (Bool-cases (validate_schema && ltb 0 (length (validator event)))) [
        | inl invalid ↦ rw invalid tt
        | inr valid ↦ rw valid (
            All-sort (compare_findings platform) (AtSafePath platform) _ (
              identified-Safe (as_string (read_path event ("id" ∷ []))) _
                (unseen-Safe [] _ (collected-Safe platform event))))
      ]

  -- A line of the schema issues that counts issues, or shows one at a redacted path.
  abbrev pub AtRedactedLine : SchemaIssueLine → Type 0
  AtRedactedLine (shown issue) = AtRedactedPath platform issue
  AtRedactedLine (further n) = Unit

  lines-AtRedactedLine :
      (issues : List ValidationIssue)
      → All (AtRedactedPath platform) issues
      → All AtRedactedLine (issue_lines issues)
  lines-AtRedactedLine issues h =
      elim (Bool-cases (ltb (length (map shown (take 5 issues))) (length issues))) [
        | inl more ↦ rw more (All-append AtRedactedLine _ _ (of_shown _ first) (tt, tt))
        | inr all_shown ↦ rw all_shown (of_shown _ first)
      ]
    where
      first : All (AtRedactedPath platform) (take 5 issues)
      first = All-take (AtRedactedPath platform) 5 issues h

      of_shown :
          (is : List ValidationIssue)
          → All (AtRedactedPath platform) is
          → All AtRedactedLine (map shown is)
      of_shown [] a = tt
      of_shown (i ∷ is) (p, a) = (p, of_shown is a)

  -- `createVersionedValidator`, every validator of which gives the errors of its compiled schema to
  -- `toIssues`.
  abbrev pub validator_of : (SpecVersion → Value → List ErrorObject) → Validator
  validator_of errors = versioned_validator (λ version v. to_issues platform (errors version v))

  validator_of-AtRedactedPath :
      (errors : SpecVersion → Value → List ErrorObject) (event : Value)
      → All (AtRedactedPath platform) (validator_of errors event)
  unfolding versioned_validator
  validator_of-AtRedactedPath errors event = by_version (declared_spec_version event)
    where
      by_version :
          (d : DeclaredSpecVersion)
          → All (AtRedactedPath platform) (elim d [
            | supported_version v ↦ to_issues platform (errors v event)
            | unsupported_version version ↦ not_evaluated version ∷ []
            | malformed_version ↦ to_issues platform (errors SpecVersion.version_1_0 event)
          ])
      by_version (supported_version v) = to_issues-AtRedactedPath platform (errors v event)
      by_version (unsupported_version version) = (inr (inl refl), tt)
      by_version malformed_version =
          to_issues-AtRedactedPath platform (errors SpecVersion.version_1_0 event)

  issues-AtRedactedLine :
      (event : Value) (label : String) (validator : Validator) (validate_schema : Bool)
      → All (AtRedactedPath platform) (validator event)
      → All AtRedactedLine (lint_event platform event label validator validate_schema).schema_issues
  unfolding lint_event
  issues-AtRedactedLine event label validator validate_schema h =
      elim (Bool-cases (validate_schema && ltb 0 (length (validator event)))) [
        | inl invalid ↦ rw invalid (lines-AtRedactedLine (validator event) h)
        | inr valid ↦ rw valid tt
      ]

  -- Every path of a finding in a report is made of fixed names, of indices, of property names that
  -- are not shaped like a credential, and of the mark that stands for a name that is. When a validator
  -- by version gives the errors of each compiled schema to `toIssues`, every schema issue that the
  -- report shows is at the event itself, at its version, or at a path of whose reference tokens every
  -- one, after the first slash, is the mark or decodes to a name that is not shaped like a credential.
  pub lint_event-AtSafePath :
      (event : Value) (label : String) (errors : SpecVersion → Value → List ErrorObject)
      (validate_schema : Bool)
      → All
          (AtSafePath platform)
          (lint_event platform event label (validator_of errors) validate_schema).findings
        × All AtRedactedLine
            (lint_event platform event label (validator_of errors) validate_schema).schema_issues
  lint_event-AtSafePath event label errors validate_schema = (
    findings-AtSafePath event label (validator_of errors) validate_schema,
    issues-AtRedactedLine event label (validator_of errors) validate_schema
        (validator_of-AtRedactedPath errors event),
  )
