-- ===== src/Common/Groups.antt =====
-- `Map` from a key to the values seen with it, in the order of the keys' first appearance.
use mathlib.Core.Path.{◌≡◌, refl, ap, sym, subst, ◌∙◌}
use mathlib.Core.Logic.{inl, inr}
use mathlib.Core.Bool.{Bool, true, false, ◌||◌}
use mathlib.Core.List.{List, [], ◌∷◌, ◌++◌}
use mathlib.Core.Option.{Option, none, some}
use open_audit_model.Common.Tests.{if◌then◌else◌, Bool-cases, value_or, is_none, true-ne-false}
use open_audit_model.Common.Lists.{All, select, append_nil, append_assoc}

-- `new Set(values)`: the distinct values, in the order of their first appearance.
module _ {ℓ} {A : Type ℓ} (same : A → A → Bool) where
  abbrev pub has : List A → A → Bool
  has [] x = false
  has (y ∷ ys) x = same y x || has ys x

  abbrev pub distinct_from : List A → List A → List A
  distinct_from seen [] = seen
  distinct_from seen (x ∷ xs) = distinct_from (if has seen x then seen else seen ++ x ∷ []) xs

  abbrev pub distinct : List A → List A
  distinct xs = distinct_from [] xs

  -- The key of a value is this one.
  abbrev pub is_key : A → Option A → Bool
  is_key k none = false
  is_key k (some j) = same j k

module _ {ℓ κ} {K : Type ℓ} {V : Type κ} (same : K → K → Bool) where
  abbrev pub group : List (K × List V) → K → Option (List V)
  group [] k = none
  group ((j, vs) ∷ gs) k = if same j k then some vs else group gs k

  -- `push` on the list of a key, which is made when the key is new.
  abbrev pub add_to_group : K → V → List (K × List V) → List (K × List V)
  add_to_group k v [] = (k, v ∷ []) ∷ []
  add_to_group k v ((j, vs) ∷ gs) =
      let rest = add_to_group k v gs in if same j k then (j, vs ++ v ∷ []) ∷ gs else (j, vs) ∷ rest

  abbrev pub members_of : List (K × List V) → K → List V
  members_of gs k = value_or (group gs k) []

  -- The values under their keys, in order; a value without a key is left out.
  abbrev pub collect : (V → Option K) → List (K × List V) → List V → List (K × List V)
  collect key gs [] = gs
  collect key gs (v ∷ vs) =
      collect key (elim (key v) [ none ↦ gs | some k ↦ add_to_group k v gs ]) vs

  -- No key stands twice.
  abbrev pub Keyed : List (K × List V) → Type 0
  Keyed [] = Unit
  Keyed ((k, vs) ∷ gs) = (is_none (group gs k) ≡ true) × Keyed gs

  module _ (refl_same : (k : K) → same k k ≡ true)
      (same→≡ : (j k : K) → same j k ≡ true → j ≡ k) where
    pub members_of-add_to_group :
        (k : K) (v : V) (gs : List (K × List V))
        → members_of (add_to_group k v gs) k ≡ members_of gs k ++ v ∷ []
    members_of-add_to_group k v [] = rw (refl_same k) refl
    members_of-add_to_group k v ((j, vs) ∷ gs) = elim (Bool-cases (same j k)) [
      | inl e ↦ rw (e, e) refl
      | inr n ↦ rw (n, n) (members_of-add_to_group k v gs)
    ]

    pub group-add_to_group :
        (i k : K) (v : V) (gs : List (K × List V))
        → same k i ≡ false
        → group (add_to_group k v gs) i ≡ group gs i
    group-add_to_group i k v [] d = rw d refl
    group-add_to_group i k v ((j, vs) ∷ gs) d = elim (Bool-cases (same j k)) [
      | inl e ↦ rw (e, ap (λ j. same j i) (same→≡ j k e) ∙ d) refl
      | inr n ↦ elim (Bool-cases (same j i)) [
        | inl here ↦ rw (n, here) refl
        | inr there ↦ rw (n, there) (group-add_to_group i k v gs d)
      ]
    ]

    members_of-step :
        (i : K) (o : Option K) (v : V) (vs : List V) (gs : List (K × List V))
        → members_of (elim o [ none ↦ gs | some k ↦ add_to_group k v gs ]) i ++ vs
          ≡ members_of gs i ++ (if is_key same i o then v ∷ vs else vs)
    members_of-step i none v vs gs = refl
    members_of-step i (some k) v vs gs = elim (Bool-cases (same k i)) [
      | inr n ↦ rw (n, group-add_to_group i k v gs n) refl
      | inl e ↦
          let q = same→≡ k i e in
          rw (e, q, members_of-add_to_group i v gs) (append_assoc (members_of gs i) (v ∷ []) vs)
    ]

    -- What is collected under a key is the values that have it, in order.
    pub members_of-collect :
        (key : V → Option K) (i : K) (vs : List V) (gs : List (K × List V))
        → members_of (collect key gs vs) i
          ≡ members_of gs i ++ select (λ v. is_key same i (key v)) vs
    members_of-collect key i [] gs = sym (append_nil (members_of gs i))
    members_of-collect key i (v ∷ vs) gs =
        members_of-collect key i vs (elim (key v) [ none ↦ gs | some k ↦ add_to_group k v gs ])
        ∙ members_of-step i (key v) v (select (λ v. is_key same i (key v)) vs) gs

    pub add_to_group-Keyed :
        (k : K) (v : V) (gs : List (K × List V)) → Keyed gs → Keyed (add_to_group k v gs)
    add_to_group-Keyed k v [] h = (refl, tt)
    add_to_group-Keyed k v ((j, vs) ∷ gs) (n, h) = elim (Bool-cases (same j k)) [
      | inl e ↦ rw e (n, h)
      | inr d ↦
          rw d (ap is_none (group-add_to_group j k v gs (other d)) ∙ n, add_to_group-Keyed k v gs h)
    ]
      where
        other : same j k ≡ false → same k j ≡ false
        other d = elim (Bool-cases (same k j)) [
          | inr o ↦ o
          | inl o ↦
              absurd (
                true-ne-false (sym (subst (λ x. same x k ≡ true) (same→≡ k j o) (refl_same k)) ∙ d))
        ]

    pub collect-Keyed :
        (key : V → Option K) (vs : List V) (gs : List (K × List V))
        → Keyed gs
        → Keyed (collect key gs vs)
    collect-Keyed key [] gs h = h
    collect-Keyed key (v ∷ vs) gs h = collect-Keyed key vs _ (step (key v))
      where
        step : (o : Option K) → Keyed (elim o [ none ↦ gs | some k ↦ add_to_group k v gs ])
        step none = h
        step (some k) = add_to_group-Keyed k v gs h

    module _ (P : List V → Type 0) (empty : P []) where
      -- What holds of every list holds under every key, and the other way round.
      pub members_of-All :
          (gs : List (K × List V)) (k : K) → All (λ e. P e.1) gs → P (members_of gs k)
      members_of-All [] k h = empty
      members_of-All ((j, vs) ∷ gs) k (p, h) = elim (Bool-cases (same j k)) [
        | inl e ↦ rw e p
        | inr n ↦ rw n (members_of-All gs k h)
      ]

      pub All-members_of :
          (gs : List (K × List V))
          → Keyed gs
          → ((k : K) → P (members_of gs k))
          → All (λ e. P e.1) gs
      All-members_of [] h f = tt
      All-members_of ((j, vs) ∷ gs) (n, h) f = (
        subst P (rw (refl_same j) refl) (f j),
        All-members_of gs h (λ k. elim (Bool-cases (same j k)) [
          | inr d ↦ subst P (rw d refl) (f k)
          | inl e ↦
              subst P
                (none_of (group gs k) (subst (λ i. is_none (group gs i) ≡ true) (same→≡ j k e) n))
                empty
        ]),
      )
        where
          none_of : (o : Option (List V)) → is_none o ≡ true → [] ≡ value_or o []
          none_of none e = refl
          none_of (some vs) e = cc
