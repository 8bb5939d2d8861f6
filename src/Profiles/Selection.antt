-- ===== src/Profiles/Selection.antt =====
-- The rules that an event name selects.
use open_audit_model.Common.{
  String, ◌≡◌, refl, sym, ◌∙◌, inl, inr, Bool, true, false, not, ◌||◌, List, [], ◌∷◌, map, arith,
  Bool-cases, All, ◌===◌, ===_refl, includes, true-ne-false, subst,
}
use open_audit_model.Profiles.Types.{ProfileRule, ProfileDefinition}
use open_audit_model.Profiles.Rules.{rule_matches, select_from, select_rules}

-- Rules left out of a list, the order of the others kept.
pub data Within : List ProfileRule → List ProfileRule → Type 0 where
  nothing_left : Within [] []
  left_out :
      {out rules : List ProfileRule} (rule : ProfileRule)
      → Within out rules
      → Within out (rule ∷ rules)
  kept :
      {out rules : List ProfileRule} (rule : ProfileRule)
      → Within out rules
      → Within (rule ∷ out) (rule ∷ rules)

-- No rule has the identifier of an earlier one.
abbrev pub Unrepeated : List String → List ProfileRule → Type 0
Unrepeated seen [] = Unit
Unrepeated seen (rule ∷ rules) = (includes seen rule.id ≡ false) × Unrepeated (rule.id ∷ seen) rules

abbrev pub ids : List ProfileRule → List String
ids rules = map (λ rule. rule.id) rules

-- What a selection is.
pub record IsSelection (rules : List ProfileRule) (name : String) (out : List ProfileRule)
    : Type 0 where
  pub in_order : Within out rules
  pub matches : All (λ rule. rule_matches rule name ≡ true) out
  pub unrepeated : Unrepeated [] out
  pub complete :
      All (λ rule. rule_matches rule name ≡ true → includes (ids out) rule.id ≡ true) rules

select-Within :
    (seen : List String) (rules : List ProfileRule) (name : String)
    → Within (select_from seen rules name) rules
select-Within seen [] name = nothing_left
select-Within seen (rule ∷ rules) name =
    elim (Bool-cases (not (rule_matches rule name) || includes seen rule.id)) [
      | inl s ↦ rw s (left_out rule (select-Within seen rules name))
      | inr t ↦ rw t (kept rule (select-Within (rule.id ∷ seen) rules name))
    ]

select-matches :
    (seen : List String) (rules : List ProfileRule) (name : String)
    → All (λ rule. rule_matches rule name ≡ true) (select_from seen rules name)
select-matches seen [] name = tt
select-matches seen (rule ∷ rules) name =
    elim (Bool-cases (not (rule_matches rule name) || includes seen rule.id)) [
      | inl s ↦ rw s (select-matches seen rules name)
      | inr t ↦ rw t (
        kept_matches (rule_matches rule name) (includes seen rule.id) t,
        select-matches (rule.id ∷ seen) rules name,
      )
    ]
  where
    kept_matches : (m s : Bool) → (not m || s) ≡ false → m ≡ true
    kept_matches m s e = ground arith

Unrepeated-more :
    (id : String) (seen more : List String) (rules : List ProfileRule)
    → ((x : String) → includes more x ≡ true → includes seen x ≡ true)
    → Unrepeated seen rules
    → Unrepeated more rules
Unrepeated-more id seen more [] f h = tt
Unrepeated-more id seen more (rule ∷ rules) f (n, h) = (
  elim (Bool-cases (includes more rule.id)) [
    | inr m ↦ m
    | inl m ↦ absurd (true-ne-false (sym (f rule.id m) ∙ n))
  ],
  Unrepeated-more id (rule.id ∷ seen) (rule.id ∷ more) rules extended h,
)
  where
    either : (a b c : Bool) → (b ≡ true → c ≡ true) → (a || b) ≡ true → (a || c) ≡ true
    either true b c g e = refl
    either false b c g e = g e

    extended :
        (x : String) → includes (rule.id ∷ more) x ≡ true → includes (rule.id ∷ seen) x ≡ true
    extended x e = either (rule.id === x) (includes more x) (includes seen x) (f x) e

select-Unrepeated :
    (seen : List String) (rules : List ProfileRule) (name : String)
    → Unrepeated seen (select_from seen rules name)
select-Unrepeated seen [] name = tt
select-Unrepeated seen (rule ∷ rules) name =
    elim (Bool-cases (not (rule_matches rule name) || includes seen rule.id)) [
      | inl s ↦ rw s (select-Unrepeated seen rules name)
      | inr t ↦ rw t (
        fresh (rule_matches rule name) (includes seen rule.id) t,
        select-Unrepeated (rule.id ∷ seen) rules name,
      )
    ]
  where
    fresh : (m s : Bool) → (not m || s) ≡ false → s ≡ false
    fresh m s e = ground arith

-- A rule that matches was seen, or is selected under its identifier.
abbrev Covered : List String → List ProfileRule → String → ProfileRule → Type 0
Covered seen out name rule =
    rule_matches rule name ≡ true → (includes seen rule.id || includes (ids out) rule.id) ≡ true

select_complete :
    (seen : List String) (rules : List ProfileRule) (name : String)
    → All (Covered seen (select_from seen rules name) name) rules
select_complete seen [] name = tt
select_complete seen (rule ∷ rules) name =
    elim (Bool-cases (not (rule_matches rule name) || includes seen rule.id)) [
      | inl s ↦
          let e : select_from seen (rule ∷ rules) name ≡ select_from seen rules name = rw s refl in
          subst (λ out. All (Covered seen out name) (rule ∷ rules)) (sym e)
            (
              λ m. skipped (rule_matches rule name) (includes seen rule.id) _ m s,
              select_complete seen rules name,
            )
      | inr t ↦
          let e : select_from seen (rule ∷ rules) name
              ≡ rule ∷ select_from (rule.id ∷ seen) rules name =
            rw t refl in
          subst (λ out. All (Covered seen out name) (rule ∷ rules)) (sym e)
            (
              λ m. found (includes seen rule.id) (rule.id === rule.id) _ (===_refl rule.id),
              moved rules (select_complete (rule.id ∷ seen) rules name),
            )
    ]
  where
    skipped : (m s o : Bool) → m ≡ true → (not m || s) ≡ true → (s || o) ≡ true
    skipped m s o e f = ground arith

    found : (s i o : Bool) → i ≡ true → (s || (i || o)) ≡ true
    found s i o e = ground arith

    regroup : (a b c : Bool) → ((a || b) || c) ≡ true → (b || (a || c)) ≡ true
    regroup a b c e = ground arith

    moved :
        (rs : List ProfileRule)
        → All (Covered (rule.id ∷ seen) (select_from (rule.id ∷ seen) rules name) name) rs
        → All (Covered seen (rule ∷ select_from (rule.id ∷ seen) rules name) name) rs
    moved [] h = tt
    moved (r ∷ rs) (p, h) = (
      λ m.
          regroup (rule.id === r.id) (includes seen r.id)
            (includes (ids (select_from (rule.id ∷ seen) rules name)) r.id) (p m),
      moved rs h,
    )

-- The rules that an event name selects are rules of the profile in the order of the profile, each
-- matches the name, no identifier is selected twice, and a rule of the profile that matches is
-- selected, or another rule with its identifier is.
pub select_rules-IsSelection :
    (profile : ProfileDefinition) (name : String)
    → IsSelection profile.rules name (select_rules profile name)
unfolding select_rules
select_rules-IsSelection profile name = record {
  in_order = select-Within [] profile.rules name;
  matches = select-matches [] profile.rules name;
  unrepeated = select-Unrepeated [] profile.rules name;
  complete = select_complete [] profile.rules name;
}
