-- ===== src/Privacy/LintEvent/Once.antt =====
-- Which findings are reported, and in which order.
use open_audit_model.Common.{
  ℕ, String, ◌≡◌, refl, ap, ◌⊎◌, inl, inr, true, false, List, [], ◌∷◌, if◌then◌else◌, Bool-cases,
  length, select, ◌===◌, ===→≡, includes, suc, ◌≤◌, sym, ◌∙◌, ◌↔◌, Bool, ◌&&◌, Option, map, arith,
  ltb, ltb→lt, ltb-false→le, Sign, is_positive, sign_of_difference, then_by, length-select-sort,
  Adjacent, sort-Ascends, ===_refl, sort,
}
use Prim.Native.Nat.{min}
use open_audit_model.Json.{as_string, Value}
use open_audit_model.Integrity.Findings.{Validator}
use open_audit_model.Privacy.Platform.{Platform}
use open_audit_model.Privacy.Rules.{PrivacyFinding, severity_rank, clean}
use open_audit_model.Privacy.Traverse.{read_path}
use open_audit_model.Privacy.LintEvent.{collected}
use open_audit_model.Privacy.LintEvent.Report.{
  finding_key, unseen, identified, compare_findings, report_of, lint_event, status_of,
}

-- How many findings have this rule and path.
abbrev pub count_key : String → List PrivacyFinding → ℕ
count_key k fs = length (select (λ f. finding_key f === k) fs)

includes-cons_ne :
    (s : String) (seen : List String) (k : String)
    → (s === k) ≡ false
    → includes (s ∷ seen) k ≡ includes seen k
includes-cons_ne s seen k e = rw e refl

includes_of_eq :
    (seen : List String) (s k : String) → (s === k) ≡ true → includes seen s ≡ includes seen k
includes_of_eq seen s k e = ap (includes seen) (===→≡ s k e)

count_key-unseen :
    (seen : List String) (fs : List PrivacyFinding) (k : String)
    → count_key k (unseen seen fs) ≡ (if includes seen k then 0 else min 1 (count_key k fs))
unfolding unseen
count_key-unseen seen [] k = elim (Bool-cases (includes seen k)) [
  | inl e ↦ rw e refl
  | inr n ↦ rw n refl
]
count_key-unseen seen (f ∷ fs) k = elim (Bool-cases (includes seen (finding_key f))) [
  | inl old ↦ rw old (skip old (Bool-cases (finding_key f === k)) (count_key-unseen seen fs k))
  | inr fresh ↦
      rw fresh (
        keep fresh (Bool-cases (finding_key f === k))
          (count_key-unseen (finding_key f ∷ seen) fs k))
]
  where
    skip :
        includes seen (finding_key f) ≡ true
        → ((finding_key f === k) ≡ true) ⊎ ((finding_key f === k) ≡ false)
        → count_key k (unseen seen fs) ≡ (if includes seen k then 0 else min 1 (count_key k fs))
        → count_key k (unseen seen fs)
          ≡ (if includes seen k then 0 else min 1 (count_key k (f ∷ fs)))
    skip old (inl e) ih =
        let t : includes seen k ≡ true = sym (includes_of_eq seen (finding_key f) k e) ∙ old in
        rw t (rw t at ih)
    skip old (inr n) ih = rw n ih

    keep :
        includes seen (finding_key f) ≡ false
        → ((finding_key f === k) ≡ true) ⊎ ((finding_key f === k) ≡ false)
        → count_key k (unseen (finding_key f ∷ seen) fs)
          ≡ (if includes (finding_key f ∷ seen) k then 0 else min 1 (count_key k fs))
        → count_key k (f ∷ unseen (finding_key f ∷ seen) fs)
          ≡ (if includes seen k then 0 else min 1 (count_key k (f ∷ fs)))
    keep fresh (inl e) ih =
        let t : includes seen k ≡ false = sym (includes_of_eq seen (finding_key f) k e) ∙ fresh in
        let z : count_key k (unseen (finding_key f ∷ seen) fs) ≡ 0 = rw e at ih in
        rw (e, t) (omega (arith, z))
    keep fresh (inr n) ih = rw n (rw n at ih)

count_key-identified :
    (id : Option String) (k : String) (fs : List PrivacyFinding)
    → count_key k (map (identified id) fs) ≡ count_key k fs
count_key-identified id k [] = refl
count_key-identified id k (f ∷ fs) = elim (Bool-cases (finding_key f === k)) [
  | inl e ↦ rw e (ap suc (count_key-identified id k fs))
  | inr n ↦ rw n (count_key-identified id k fs)
]

rank : PrivacyFinding → ℕ
rank f = severity_rank f.severity

module _ (platform : Platform) where
  by_rank :
      (a b : ℕ) (next : Sign)
      → (is_positive (then_by (sign_of_difference a b) next) ≡ true → b ≤ a)
        × (is_positive (then_by (sign_of_difference a b) next) ≡ false → a ≤ b)
  by_rank a b next = elim (Bool-cases (ltb a b)) [
    | inl l ↦ rw l (λ e. cc, λ e. omega (arith, ltb→lt a b l))
    | inr n ↦ elim (Bool-cases (ltb b a)) [
      | inl g ↦ rw (n, g) (λ e. omega (arith, ltb→lt b a g), λ e. cc)
      | inr m ↦ (λ e. omega (arith, ltb-false→le a b n), λ e. omega (arith, ltb-false→le b a m))
    ]
  ]

  count_key-report_of :
      (id : Option String) (fs : List PrivacyFinding) (k : String)
      → count_key k (report_of platform id fs) ≡ min 1 (count_key k fs)
  unfolding report_of
  count_key-report_of id fs k =
      length-select-sort (compare_findings platform) (λ f. finding_key f === k)
        (map (identified id) (unseen [] fs))
      ∙ (count_key-identified id k (unseen [] fs) ∙ count_key-unseen [] fs k)

  empty_report : (id : Option String) → report_of platform id [] ≡ []
  unfolding report_of unseen sort
  empty_report id = refl

  nothing :
      (f : PrivacyFinding) (fs rs : List PrivacyFinding)
      → count_key (finding_key f) rs ≡ min 1 (count_key (finding_key f) (f ∷ fs))
      → status_of rs ≡ clean
      → ⊥
  nothing f fs (r ∷ rs) c e = cc
  nothing f fs [] c e =
      let one : 0 ≡ min 1 (suc (count_key (finding_key f) fs)) =
        rw (===_refl (finding_key f)) at c in
      omega (arith, one)

  clean_iff :
      (id : Option String) (fs : List PrivacyFinding)
      → (status_of (report_of platform id fs) ≡ clean) ↔ (fs ≡ [])
  clean_iff id [] = (λ e. refl, λ e. rw (empty_report id) refl)
  clean_iff id (f ∷ fs) = (
    λ e. absurd (
        nothing f fs (report_of platform id (f ∷ fs))
          (count_key-report_of id (f ∷ fs) (finding_key f)) e),
    λ e. cc,
  )

  -- For an event that the schema admits, or that it is not asked about, the findings stand in the
  -- order of their severity, the most severe first; each rule that is found at a path is reported
  -- for that path once; and the event is clean exactly when nothing is found.
  pub lint_event-once :
      (event : Value) (label : String) (validator : Validator) (validate_schema : Bool)
      → (validate_schema && ltb 0 (length (validator event))) ≡ false
      → Adjacent
          (λ f g. severity_rank f.severity ≤ severity_rank g.severity)
          (lint_event platform event label validator validate_schema).findings
        × ((k : String)
            → count_key k (lint_event platform event label validator validate_schema).findings
              ≡ min 1 (count_key k (collected platform event)))
        × (((lint_event platform event label validator validate_schema).status ≡ clean)
            ↔ (collected platform event ≡ []))
  unfolding lint_event report_of rank
  lint_event-once event label validator validate_schema admitted = rw admitted (
    sort-Ascends (compare_findings platform) rank (λ f g. (by_rank (rank f) (rank g) _).0)
        (λ f g. (by_rank (rank f) (rank g) _).1) (map (identified id) (unseen [] all_found)),
    count_key-report_of id all_found,
    clean_iff id all_found,
  )
    where
      id : Option String
      id = as_string (read_path event ("id" ∷ []))

      all_found : List PrivacyFinding
      all_found = collected platform event
