-- ===== src/Common/Sort.antt =====
-- `Array.prototype.sort` with a comparator: the stable sort.
use Prim.Native.Nat.{ℕ, ◌≤◌, suc}
use mathlib.Core.Path.{◌≡◌, refl, ap, ◌∙◌}
use mathlib.Core.Bool.{Bool, true, false}
use mathlib.Core.List.{List, [], ◌∷◌}
use mathlib.Core.Logic.{inl, inr}
use open_audit_model.Common.Tests.{if◌then◌else◌, Bool-cases, ltb}
use open_audit_model.Common.Lists.{All, length, select}

-- What a comparator returns: a negative number, zero, or a positive number.
pub data Sign : Type 0 where
  negative zero positive : Sign

abbrev pub is_positive : Sign → Bool
is_positive positive = true
is_positive s = false

-- `left - right`
abbrev pub sign_of_difference : ℕ → ℕ → Sign
sign_of_difference a b = if ltb a b then negative else if ltb b a then positive else zero

-- `sign || next`, for the next comparison of two elements
abbrev pub then_by : Sign → Sign → Sign
then_by zero next = next
then_by s next = s

module _ {ℓ} {A : Type ℓ} (compare : A → A → Sign) where
  abbrev pub insert : A → List A → List A
  insert x [] = x ∷ []
  insert x (y ∷ ys) =
      let rest = insert x ys in if is_positive (compare x y) then y ∷ rest else x ∷ y ∷ ys

  unfoldable pub sort : List A → List A
  sort [] = []
  sort (x ∷ xs) = insert x (sort xs)

  module _ (P : A → Type 0) where
    All-insert : (x : A) (xs : List A) → P x → All P xs → All P (insert x xs)
    All-insert x [] p h = (p, tt)
    All-insert x (y ∷ ys) p (q, h) = elim (Bool-cases (is_positive (compare x y))) [
      | inl g ↦ rw g (q, All-insert x ys p h)
      | inr n ↦ rw n (p, (q, h))
    ]

    pub All-sort : (xs : List A) → All P xs → All P (sort xs)
    unfolding sort
    All-sort [] h = tt
    All-sort (x ∷ xs) (p, h) = All-insert x (sort xs) p (All-sort xs h)

    insert-All : (x : A) (xs : List A) → All P (insert x xs) → P x × All P xs
    insert-All x [] (p, h) = (p, tt)
    insert-All x (y ∷ ys) h = elim (Bool-cases (is_positive (compare x y))) [
      | inl g ↦
          let (q, k) : P y × All P (insert x ys) = rw g at h in
          let (p, r) = insert-All x ys k in (p, (q, r))
      | inr n ↦ rw n at h
    ]

    pub sort-All : (xs : List A) → All P (sort xs) → All P xs
    unfolding sort
    sort-All [] h = tt
    sort-All (x ∷ xs) h = let (p, r) = insert-All x (sort xs) h in (p, sort-All xs r)

  module _ (p : A → Bool) where
    abbrev count : List A → ℕ
    count xs = length (select p xs)

    count-insert : (x : A) (xs : List A) → count (insert x xs) ≡ count (x ∷ xs)
    count-insert x [] = refl
    count-insert x (y ∷ ys) = elim (Bool-cases (is_positive (compare x y))) [
      | inr n ↦ rw n refl
      | inl g ↦ rw g (swap (p x) (p y) (count-insert x ys))
    ]
      where
        swap :
            (a b : Bool)
            → length (select p (insert x ys)) ≡ length (if a then x ∷ select p ys else select p ys)
            → length (if b then y ∷ select p (insert x ys) else select p (insert x ys))
              ≡ length (
                  if a
                  then x ∷ (if b then y ∷ select p ys else select p ys)
                  else (if b then y ∷ select p ys else select p ys))
        swap true true e = ap suc e
        swap true false e = e
        swap false true e = ap suc e
        swap false false e = e

    pub length-select-sort : (xs : List A) → length (select p (sort xs)) ≡ length (select p xs)
    unfolding sort
    length-select-sort [] = refl
    length-select-sort (x ∷ xs) = count-insert x (sort xs) ∙ step (p x) (length-select-sort xs)
      where
        step :
            (a : Bool)
            → length (select p (sort xs)) ≡ length (select p xs)
            → length (if a then x ∷ select p (sort xs) else select p (sort xs))
              ≡ length (if a then x ∷ select p xs else select p xs)
        step true e = ap suc e
        step false e = e

  length-insert : (x : A) (xs : List A) → length (insert x xs) ≡ suc (length xs)
  length-insert x [] = refl
  length-insert x (y ∷ ys) = elim (Bool-cases (is_positive (compare x y))) [
    | inl g ↦ rw g (ap suc (length-insert x ys))
    | inr n ↦ rw n refl
  ]

  pub length-sort : (xs : List A) → length (sort xs) ≡ length xs
  unfolding sort
  length-sort [] = refl
  length-sort (x ∷ xs) = length-insert x (sort xs) ∙ ap suc (length-sort xs)

-- Adjacent elements are related.
module _ {ℓ} {A : Type ℓ} (R : A → A → Type 0) where
  abbrev pub Before : A → List A → Type 0
  Before x [] = Unit
  Before x (y ∷ ys) = R x y

  abbrev pub Adjacent : List A → Type 0
  Adjacent [] = Unit
  Adjacent (x ∷ xs) = Before x xs × Adjacent xs

module _ {ℓ} {A : Type ℓ} (compare : A → A → Sign) (key : A → ℕ) where
  abbrev pub Ascends : A → A → Type 0
  Ascends x y = key x ≤ key y

  -- A list in the order of the comparator stays as it is.
  pub sort_id :
      (xs : List A) → Adjacent (λ x y. is_positive (compare x y) ≡ false) xs → sort compare xs ≡ xs
  unfolding sort
  sort_id [] h = refl
  sort_id (x ∷ []) h = refl
  sort_id (x ∷ y ∷ ys) (p, h) = rw (sort_id (y ∷ ys) h, p) refl

  module _ (above : (x y : A) → is_positive (compare x y) ≡ true → key y ≤ key x)
      (below : (x y : A) → is_positive (compare x y) ≡ false → key x ≤ key y) where
    insert-Ascends :
        (x : A) (xs : List A) → Adjacent Ascends xs → Adjacent Ascends (insert compare x xs)
    insert-Ascends x [] h = (tt, tt)
    insert-Ascends x (y ∷ ys) (b, h) = elim (Bool-cases (is_positive (compare x y))) [
      | inr n ↦ rw n (below x y n, (b, h))
      | inl g ↦ rw g (first ys b g, insert-Ascends x ys h)
    ]
      where
        first :
            (ys : List A)
            → Before Ascends y ys
            → is_positive (compare x y) ≡ true
            → Before Ascends y (insert compare x ys)
        first [] b g = above x y g
        first (z ∷ zs) b g = elim (Bool-cases (is_positive (compare x z))) [
          | inl g' ↦ rw g' b
          | inr n ↦ rw n (above x y g)
        ]

    pub sort-Ascends : (xs : List A) → Adjacent Ascends (sort compare xs)
    unfolding sort
    sort-Ascends [] = tt
    sort-Ascends (x ∷ xs) = insert-Ascends x (sort compare xs) (sort-Ascends xs)
