-- ===== src/Json/Shape.antt =====
-- Independent descriptions of a value: how deep it is nested, and whether JSON can represent it.
use open_audit_model.Common.{ℕ, suc, max, ◌≡◌, true}
use open_audit_model.Json.{
  Value, is_finite, null, undef, bool, num, str, arr, obj, Items, nil, cons, Fields, end, field,
}

abbrev mutual
  -- The number of containers on the longest way from a value to one that stands in it.
  pub height : Value → ℕ
  height (arr xs) = height_items xs
  height (obj fs) = height_fields fs
  height v = 0

  pub height_items : Items → ℕ
  height_items nil = 0
  height_items (cons v xs) = max (suc (height v)) (height_items xs)

  pub height_fields : Fields → ℕ
  height_fields end = 0
  height_fields (field k v fs) = max (suc (height v)) (height_fields fs)

abbrev mutual
  -- No `undefined` and no number that is not finite, at any depth.
  pub IsJson : Value → Type 0
  IsJson null = Unit
  IsJson undef = ⊥
  IsJson (bool b) = Unit
  IsJson (num n) = is_finite n ≡ true
  IsJson (str s) = Unit
  IsJson (arr xs) = AreJson xs
  IsJson (obj fs) = HoldJson fs

  pub AreJson : Items → Type 0
  AreJson nil = Unit
  AreJson (cons v xs) = IsJson v × AreJson xs

  pub HoldJson : Fields → Type 0
  HoldJson end = Unit
  HoldJson (field k v fs) = IsJson v × HoldJson fs
