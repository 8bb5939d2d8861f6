-- ===== src/Integrity/Chain/Report.antt =====
-- The chains of a set of events: what every event is taken for, and when the report is intact.
use open_audit_model.Common.{
  String, ◌≡◌, refl, sym, ap, ◌∙◌, subst, ◌↔◌, ◌⊎◌, inl, inr, Bool, true, false, Option, List, [],
  ◌∷◌, ◌++◌, map, if◌then◌else◌, Bool-cases, true-of-&&, value_or, all, flat_map, All, ◌===◌, ===→≡,
  ===_refl, append_nil, append_assoc, members_of, Keyed, members_of-add_to_group,
  add_to_group-Keyed, group-add_to_group, members_of-All, All-members_of, Sign, sort, All-sort,
  sort-All, Adjacent, none, some, Option-cases,
}
use mathlib.Core.Path.{ap₂}
use open_audit_model.Json.{as_string, member, Fields}
use open_audit_model.Integrity.Signature.{PublicKey}
use open_audit_model.Integrity.Findings.{Validator, FindingKind, at_event}
use open_audit_model.Integrity.Event.{read_integrity, Engine}
use open_audit_model.Integrity.Chain.{is_empty, ChainMember, ChainEventInput}
use open_audit_model.Integrity.Chain.Verify.{verify_one_chain, ChainIntake}
use open_audit_model.Integrity.Chain.Intake.{
  chain_member, start_chain_intake, leave_out, put_member, assign_event, take_in, add_chain_event,
  add_chain_events, batch_chains_of, by_chain_id, finish_chains, verify_chains,
}
use open_audit_model.Integrity.Chain.Intact.{is_empty_append, IsIntact, Follows}
use open_audit_model.Integrity.Chain.Verdict.{verify_one_chain-intact_iff, ordered_of_Increases}

List-cases {ℓ} : {A : Type ℓ} (xs : List A) → (xs ≡ []) ⊎ ((x : A) × (ys : List A) × (xs ≡ x ∷ ys))
List-cases [] = inl refl
List-cases (x ∷ xs) = inr (x, xs, refl)

same_text : (j k : String) → (j === k) ≡ true → j ≡ k
same_text j k e = ===→≡ j k e

module _ (env : Engine) (validator : Validator) (key : Option PublicKey) where
  -- What an event is taken for.
  abbrev pub assigned : ChainEventInput → FindingKind ⊎ (String × ChainMember)
  assigned input = assign_event env validator key input (validator input.event)

  -- The member of a chain that an event is, if it is one of that chain.
  abbrev pub member_in : String → FindingKind ⊎ (String × ChainMember) → List ChainMember
  member_in chain_id (inl kind) = []
  member_in chain_id (inr (c, m)) = if c === chain_id then m ∷ [] else []

  abbrev pub members_in : String → List ChainEventInput → List ChainMember
  members_in chain_id inputs = flat_map (λ input. member_in chain_id (assigned input)) inputs

  abbrev pub is_assigned : FindingKind ⊎ (String × ChainMember) → Bool
  is_assigned (inl kind) = false
  is_assigned (inr p) = true

  members-take_in :
      (chain_id label : String) (intake : ChainIntake) (a : FindingKind ⊎ (String × ChainMember))
      → members_of ◌===◌ (take_in env validator key intake label a).groups chain_id
        ≡ members_of ◌===◌ intake.groups chain_id ++ member_in chain_id a
  members-take_in chain_id label intake (inl kind) =
      sym (append_nil (members_of ◌===◌ intake.groups chain_id))
  members-take_in chain_id label intake (inr (c, m)) = elim (Bool-cases (c === chain_id)) [
    | inl e ↦
        rw (e, same_text c chain_id e)
          (members_of-add_to_group ◌===◌ ===_refl same_text chain_id m intake.groups)
    | inr n ↦ rw n (
        ap (λ o. value_or o [])
          (group-add_to_group ◌===◌ ===_refl same_text chain_id c m intake.groups n)
        ∙ sym (append_nil (members_of ◌===◌ intake.groups chain_id)))
  ]

  -- Every event that has a chain is a member of that chain and of no other, in the order of supply.
  members-add_chain_events :
      (chain_id : String) (inputs : List ChainEventInput) (intake : ChainIntake)
      → members_of ◌===◌ (add_chain_events env validator key intake inputs).groups chain_id
        ≡ members_of ◌===◌ intake.groups chain_id ++ members_in chain_id inputs
  unfolding add_chain_event
  members-add_chain_events chain_id [] intake =
      sym (append_nil (members_of ◌===◌ intake.groups chain_id))
  members-add_chain_events chain_id (input ∷ inputs) intake =
      members-add_chain_events chain_id inputs (add_chain_event env validator key intake input)
      ∙ (ap (λ ms. ms ++ members_in chain_id inputs)
            (members-take_in chain_id input.label intake (assigned input))
          ∙ append_assoc (members_of ◌===◌ intake.groups chain_id)
              (member_in chain_id (assigned input)) (members_in chain_id inputs))

  groups-Keyed :
      (inputs : List ChainEventInput) (intake : ChainIntake)
      → Keyed ◌===◌ intake.groups
      → Keyed ◌===◌ (add_chain_events env validator key intake inputs).groups
  unfolding add_chain_event
  groups-Keyed [] intake h = h
  groups-Keyed (input ∷ inputs) intake h =
      groups-Keyed inputs (add_chain_event env validator key intake input) (step (assigned input))
    where
      step :
          (a : FindingKind ⊎ (String × ChainMember))
          → Keyed ◌===◌ (take_in env validator key intake input.label a).groups
      step (inl kind) = h
      step (inr (c, m)) = add_to_group-Keyed ◌===◌ ===_refl same_text c m intake.groups h

  abbrev NoneLeftOut : List ChainEventInput → ChainIntake → Type 0
  NoneLeftOut inputs intake =
      (is_empty (add_chain_events env validator key intake inputs).unassigned ≡ true)
      ↔ ((is_empty intake.unassigned ≡ true) × All (λ i. is_assigned (assigned i) ≡ true) inputs)

  none_left_out : (inputs : List ChainEventInput) (intake : ChainIntake) → NoneLeftOut inputs intake
  unfolding add_chain_event
  none_left_out [] intake = (λ e. (e, tt), λ p. p.0)
  none_left_out (input ∷ inputs) intake = step (assigned input) (λ more. none_left_out inputs more)
    where
      step :
          (a : FindingKind ⊎ (String × ChainMember))
          → ((more : ChainIntake) → NoneLeftOut inputs more)
          → (is_empty
                (add_chain_events env validator key
                  (take_in env validator key intake input.label a)
                  inputs).unassigned
              ≡ true)
            ↔ ((is_empty intake.unassigned ≡ true)
                × ((is_assigned a ≡ true) × All (λ i. is_assigned (assigned i) ≡ true) inputs))
      step (inl kind) rest = (
        λ h.
            let both = (rest (leave_out intake kind input.label)).0 h in
            cc (((is_empty_append intake.unassigned (at_event kind input.label ∷ [])).0 both.0).1),
        λ p. cc p.1.0,
      )
      step (inr (c, m)) rest = (
        λ h. let (a, b) = (rest (put_member intake c m)).0 h in (a, (refl, b)),
        λ p. (rest (put_member intake c m)).1 (p.0, p.1.1),
      )

-- An event that the schema admits, and that declares the chain that it belongs to.
pub record DeclaresChain (validator : Validator) (input : ChainEventInput) : Type 0 where
  pub admitted : validator input.event ≡ []
  pub integrity : Fields
  pub has_integrity : read_integrity input.event ≡ some integrity
  pub chain_id : String
  pub has_chain_id : as_string (member integrity "chainId") ≡ some chain_id

module _ (env : Engine) (validator : Validator) (key : Option PublicKey) where
  -- The event of a member of a chain, if that is the chain that its integrity declares.
  abbrev declared_member : String → ChainEventInput → Fields → Option String → List ChainMember
  declared_member chain_id input integrity none = []
  declared_member chain_id input integrity (some c) =
      if c === chain_id then chain_member env validator key input integrity ∷ [] else []

  abbrev declared_in : String → ChainEventInput → Option Fields → List ChainMember
  declared_in chain_id input none = []
  declared_in chain_id input (some integrity) =
      declared_member chain_id input integrity (as_string (member integrity "chainId"))

  -- The events that declare a chain, in the order of supply, whatever the schema says of them.
  abbrev pub declaring : String → List ChainEventInput → List ChainMember
  declaring chain_id inputs =
      flat_map (λ input. declared_in chain_id input (read_integrity input.event)) inputs

  is_assigned_iff :
      (input : ChainEventInput)
      → (is_assigned env validator key (assigned env validator key input) ≡ true)
        ↔ DeclaresChain validator input
  is_assigned_iff input = (
    λ e. elim (List-cases (validator input.event)) [
      | inr (i, is, bad) ↦ cc (rw bad at e)
      | inl good ↦ elim (Option-cases (read_integrity input.event)) [
        | inl bad ↦ cc (rw (good, assign_event, bad) at e)
        | inr (fs, f) ↦ elim (Option-cases (as_string (member fs "chainId"))) [
          | inl bad ↦ cc (rw (good, assign_event, f, bad) at e)
          | inr (c, q) ↦ record {
            admitted = good;
            integrity = fs;
            has_integrity = f;
            chain_id = c;
            has_chain_id = q;
          }
        ]
      ]
    ],
    λ d. rw (d.admitted, assign_event, d.has_integrity, d.has_chain_id) refl,
  )

  declared_member_in :
      (chain_id : String) (input : ChainEventInput)
      → DeclaresChain validator input
      → member_in env validator key chain_id (assigned env validator key input)
        ≡ declared_in chain_id input (read_integrity input.event)
  declared_member_in chain_id input d =
      rw (d.admitted, assign_event, d.has_integrity, d.has_chain_id) refl

  members_in-declaring :
      (chain_id : String) (inputs : List ChainEventInput)
      → All (DeclaresChain validator) inputs
      → members_in env validator key chain_id inputs ≡ declaring chain_id inputs
  members_in-declaring chain_id [] h = refl
  members_in-declaring chain_id (input ∷ inputs) (d, h) =
      ap₂ ◌++◌ (declared_member_in chain_id input d) (members_in-declaring chain_id inputs h)

  all_declare :
      (inputs : List ChainEventInput)
      → All (λ i. is_assigned env validator key (assigned env validator key i) ≡ true) inputs
        ↔ All (DeclaresChain validator) inputs
  all_declare [] = (λ h. tt, λ h. tt)
  all_declare (i ∷ is) = (
    λ h. ((is_assigned_iff i).0 h.0, (all_declare is).0 h.1),
    λ h. ((is_assigned_iff i).1 h.0, (all_declare is).1 h.1),
  )

all_iff :
    {A : Type 0} (p : A → Bool) (P : A → Type 0)
    → ((x : A) → (p x ≡ true) ↔ P x)
    → (xs : List A) → (all p xs ≡ true) ↔ All P xs
all_iff p P f [] = (λ e. tt, λ h. refl)
all_iff p P f (x ∷ xs) = (
  λ e. let (a, b) = true-of-&& _ _ e in ((f x).0 a, (all_iff p P f xs).0 b),
  λ h. let a : p x ≡ true = (f x).1 h.0 in rw a ((all_iff p P f xs).1 h.1),
)

module _ (locale_compare : String → String → Sign) where
  IsIntact-nil : IsIntact locale_compare []
  IsIntact-nil = record {
    digests = tt;
    one_algorithm = tt;
    one_canonicalization = tt;
    sequenced = tt;
    linked = subst (Adjacent Follows) (sym (ordered_of_Increases locale_compare [] tt)) tt;
  }

  chains_intact :
      (groups gs : List (String × List ChainMember))
      → (all
            (λ c. c.intact)
            (map (λ g. verify_one_chain locale_compare g.0 g.1 (batch_chains_of groups [])) gs)
          ≡ true)
        ↔ All (λ g. IsIntact locale_compare g.1) gs
  chains_intact groups [] = (λ e. tt, λ h. refl)
  chains_intact groups (g ∷ gs) = (
    λ e.
        let (a, b) = true-of-&& _ _ e in
        (
          (verify_one_chain-intact_iff locale_compare g.0 g.1 (batch_chains_of groups [])).0 a,
          (chains_intact groups gs).0 b,
        ),
    λ h.
        let a =
          (verify_one_chain-intact_iff locale_compare g.0 g.1 (batch_chains_of groups [])).1 h.0 in
        rw a ((chains_intact groups gs).1 h.1),
  )

  -- A set of events is reported intact exactly when every event is valid under the schema and
  -- declares the chain that it belongs to, and for every chain identifier the events that declare
  -- it, in the order of supply, are an intact chain.
  pub verify_chains-intact_iff :
      (env : Engine) (inputs : List ChainEventInput) (validator : Validator)
      (key : Option PublicKey)
      → ((verify_chains locale_compare env inputs validator key).intact ≡ true) ↔ (
          All (DeclaresChain validator) inputs
          × ((chain_id : String)
              → IsIntact locale_compare (declaring env validator key chain_id inputs)))
  unfolding verify_chains finish_chains
  verify_chains-intact_iff env inputs validator key = (
    λ e.
        let (u, c) = true-of-&& _ _ e in
        (
          declared u,
          λ chain_id.
              subst (IsIntact locale_compare)
                (members-add_chain_events env validator key chain_id inputs start_chain_intake
                  ∙ members_in-declaring env validator key chain_id inputs (declared u))
                (members_of-All ◌===◌ ===_refl same_text (IsIntact locale_compare) IsIntact-nil
                  groups chain_id
                  (sort-All (by_chain_id locale_compare) (λ g. IsIntact locale_compare g.1) groups
                    ((chains_intact groups (sort (by_chain_id locale_compare) groups)).0 c))),
        ),
    λ p.
        let u =
          (none_left_out env validator key inputs start_chain_intake).1
            (refl, (all_declare env validator key inputs).1 p.0) in
        rw u (
          (chains_intact groups (sort (by_chain_id locale_compare) groups)).1 (
            All-sort (by_chain_id locale_compare) (λ g. IsIntact locale_compare g.1) groups
              (All-members_of ◌===◌ ===_refl same_text (IsIntact locale_compare) IsIntact-nil groups
                (groups-Keyed env validator key inputs start_chain_intake tt)
                (λ c.
                  subst (IsIntact locale_compare)
                    (sym (
                      members-add_chain_events env validator key c inputs start_chain_intake
                      ∙ members_in-declaring env validator key c inputs p.0))
                    (p.1 c))))),
  )
    where
      groups : List (String × List ChainMember)
      groups = (add_chain_events env validator key start_chain_intake inputs).groups

      declared :
          is_empty (add_chain_events env validator key start_chain_intake inputs).unassigned ≡ true
          → All (DeclaresChain validator) inputs
      declared u =
          (all_declare env validator key inputs).0
            ((none_left_out env validator key inputs start_chain_intake).0 u).1
