-- ===== src/Privacy/SchemaIssues/Paths.antt =====
-- The paths of the issues that `toIssues` gives.
use open_audit_model.Common.{
  ℕ, String, ◌≡◌, refl, sym, ap, ◌∙◌, subst, ◌⊎◌, inl, inr, Bool, false, ◌||◌, List, [], ◌∷◌, map,
  ◌==◌, Bool-cases, All, some_char, ◌===◌, ===→≡, includes, true-ne-false, prepend, ◌+++◌,
}
use Prim.Native.Char.{Char, code}
use open_audit_model.Json.Pointer.{split, split_from, decode_reference_token}
use open_audit_model.Integrity.Findings.{ValidationIssue}
use open_audit_model.Privacy.Platform.{Platform}
use open_audit_model.Privacy.RedactKey.{
  redact_pointer, is_credential_shaped, join, redact_segment, redact_segments, redacted_segment,
}
use open_audit_model.Privacy.SchemaIssues.{ErrorObject, issue_path, key_of, issues_from, to_issues}

abbrev is_slash : ℕ → Bool
is_slash c = c == 47

abbrev NoSlash : String → Type 0
NoSlash s = some_char is_slash s ≡ false

append_id : (s : String) → s +++ "" ≡ s
append_id String.[] = refl
append_id (String.◌∷◌ c s) = ap (prepend c) (append_id s)

append_lem : (s : String) (c : Char) (t : String) → (s +++ prepend c "") +++ t ≡ s +++ prepend c t
append_lem String.[] c t = refl
append_lem (String.◌∷◌ d s) c t = ap (prepend d) (append_lem s c t)

longer-NoSlash :
    (s : String) (c : Char) → NoSlash s → (code c == 47) ≡ false → NoSlash (s +++ prepend c "")
longer-NoSlash String.[] c n e = rw e refl
longer-NoSlash (String.◌∷◌ d s) c n e = elim (Bool-cases (code d == 47)) [
  | inl slash ↦ absurd (true-ne-false (sym (ap (λ b. b || some_char is_slash s) slash) ∙ n))
  | inr plain ↦
      rw plain (longer-NoSlash s c (sym (ap (λ b. b || some_char is_slash s) plain) ∙ n) e)
]

-- No part that `split` gives has a slash.
split_from-NoSlash : (cur s : String) → NoSlash cur → All NoSlash (split_from 47 cur s)
unfolding split_from
split_from-NoSlash cur String.[] n = (n, tt)
split_from-NoSlash cur (String.◌∷◌ c s) n = elim (Bool-cases (code c == 47)) [
  | inl slash ↦ rw slash (n, split_from-NoSlash "" s refl)
  | inr plain ↦
      rw plain (split_from-NoSlash (cur +++ prepend c "") s (longer-NoSlash cur c n plain))
]

-- A part without a slash is read to its end.
split_from-append :
    (cur t rest : String)
    → NoSlash t
    → split_from 47 cur (t +++ rest) ≡ split_from 47 (cur +++ t) rest
unfolding split_from
split_from-append cur String.[] rest n = ap (λ c. split_from 47 c rest) (sym (append_id cur))
split_from-append cur (String.◌∷◌ c t) rest n = elim (Bool-cases (code c == 47)) [
  | inl slash ↦ absurd (true-ne-false (sym (ap (λ b. b || some_char is_slash t) slash) ∙ n))
  | inr plain ↦ rw plain (
      split_from-append (cur +++ prepend c "") t rest
        (sym (ap (λ b. b || some_char is_slash t) plain) ∙ n)
      ∙ ap (λ u. split_from 47 u rest) (append_lem cur c t))
]

-- What is joined is split again.
split_from-join :
    (cur s : String) (ss : List String)
    → All NoSlash (s ∷ ss)
    → split_from 47 cur (join (s ∷ ss)) ≡ (cur +++ s) ∷ ss
unfolding split_from
split_from-join cur s [] (n, h) =
    ap (split_from 47 cur) (sym (append_id s)) ∙ split_from-append cur s "" n
split_from-join cur s (t ∷ ss) (n, h) =
    split_from-append cur s ("/" +++ join (t ∷ ss)) n
    ∙ ap (λ ps. (cur +++ s) ∷ ps) (split_from-join "" t ss h)

module _ (platform : Platform) where
  -- The mark, or a token whose decoded name is not shaped like a credential.
  abbrev pub SafeToken : String → Type 0
  SafeToken s =
      (s ≡ redacted_segment) ⊎ (is_credential_shaped platform (decode_reference_token s) ≡ false)

  abbrev pub SafeTokens : List String → Type 0
  SafeTokens [] = Unit
  SafeTokens (first ∷ tokens) = All SafeToken tokens

  -- The path of the event itself or of its version, or a path whose every reference token is safe.
  abbrev pub IsRedactedPath : String → Type 0
  IsRedactedPath path = (path ≡ "/") ⊎ ((path ≡ "/specVersion") ⊎ SafeTokens (split 47 path))

  redact_segment-SafeToken : (s : String) → SafeToken (redact_segment platform s)
  redact_segment-SafeToken s =
      elim (Bool-cases (is_credential_shaped platform (decode_reference_token s))) [
        | inl shaped ↦ rw shaped (inl refl)
        | inr plain ↦ inr (rw (plain, plain) refl)
      ]

  redact_segment-NoSlash : (s : String) → NoSlash s → NoSlash (redact_segment platform s)
  redact_segment-NoSlash s n =
      elim (Bool-cases (is_credential_shaped platform (decode_reference_token s))) [
        | inl shaped ↦ rw shaped refl
        | inr plain ↦ rw plain n
      ]

  map-SafeToken : (ss : List String) → All SafeToken (map (redact_segment platform) ss)
  map-SafeToken [] = tt
  map-SafeToken (s ∷ ss) = (redact_segment-SafeToken s, map-SafeToken ss)

  map-NoSlash : (ss : List String) → All NoSlash ss → All NoSlash (map (redact_segment platform) ss)
  map-NoSlash [] h = tt
  map-NoSlash (s ∷ ss) (n, h) = (redact_segment-NoSlash s n, map-NoSlash ss h)

  joined-SafeTokens :
      (ss : List String)
      → All NoSlash ss
      → SafeTokens (split 47 (join (redact_segments platform ss)))
  unfolding split split_from
  joined-SafeTokens [] h = tt
  joined-SafeTokens (s ∷ ss) (n, h) =
      subst SafeTokens
        (sym (split_from-join "" s (map (redact_segment platform) ss) (n, map-NoSlash ss h)))
        (map-SafeToken ss)

  redact_pointer-IsRedactedPath : (path : String) → IsRedactedPath (redact_pointer platform path)
  unfolding redact_pointer
  redact_pointer-IsRedactedPath path = elim (Bool-cases (path === "")) [
    | inl empty ↦ rw empty (
        inr (
          inr (
            subst (λ p. SafeTokens (split 47 p)) (sym (===→≡ path "" empty))
              (unfold split split_from in tt))))
    | inr full ↦ elim (Bool-cases (path === "/")) [
      | inl root ↦ rw (full, root) (inl (===→≡ path "/" root))
      | inr other ↦
          rw (full, other)
            (inr (
              inr (
                joined-SafeTokens (split 47 path)
                  (unfold split in split_from-NoSlash "" path refl))))
    ]
  ]

  abbrev pub AtRedactedPath : ValidationIssue → Type 0
  AtRedactedPath issue = IsRedactedPath issue.path

  issues_from-AtRedactedPath :
      (seen : List String) (errors : List ErrorObject)
      → All AtRedactedPath (issues_from platform seen errors)
  unfolding issues_from
  issues_from-AtRedactedPath seen [] = tt
  issues_from-AtRedactedPath seen (error ∷ errors) =
      elim (Bool-cases (includes seen (key_of platform error))) [
        | inl e ↦ rw e (issues_from-AtRedactedPath seen errors)
        | inr n ↦ rw n (
          redact_pointer-IsRedactedPath (issue_path error),
          issues_from-AtRedactedPath (key_of platform error ∷ seen) errors,
        )
      ]

  pub to_issues-AtRedactedPath :
      (errors : List ErrorObject) → All AtRedactedPath (to_issues platform errors)
  unfolding to_issues
  to_issues-AtRedactedPath errors = issues_from-AtRedactedPath [] errors
