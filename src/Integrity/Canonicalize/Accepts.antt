-- ===== src/Integrity/Canonicalize/Accepts.antt =====
-- Which values `assertJsonValue` lets pass.
use open_audit_model.Json.Pointer.{pointer_segment}
use open_audit_model.Common.{
  ℕ, ◌+◌, ◌≤◌, String, ◌≡◌, refl, none, arith, le→not_ltb, decimal, ◌+++◌, ◌↔◌, inl, inr, Option,
  some, ltb, if◌then◌else◌, ltb-false→le, Bool-cases,
}
use open_audit_model.Json.{
  Value, is_finite, null, undef, bool, num, str, arr, obj, Items, nil, cons, Fields, end, field,
}
use open_audit_model.Json.Shape.{height, IsJson, height_items, height_fields, AreJson, HoldJson}
use open_audit_model.Integrity.Canonicalize.{
  assert_json_value, assert_items, assert_fields, then_check, too_deep, not_finite,
  not_representable,
}

mutual
  unfolding assert_json_value

  accepts :
      (v : Value) (p : String) (d : ℕ)
      → IsJson v
      → d + height v ≤ 200
      → assert_json_value v p d ≡ none
  accepts null p d j h = rw (le→not_ltb 200 d (omega arith))
  accepts undef p d j h = absurd j
  accepts (bool b) p d j h = rw (le→not_ltb 200 d (omega arith))
  accepts (num n) p d j h = rw (le→not_ltb 200 d (omega arith), j)
  accepts (str s) p d j h = rw (le→not_ltb 200 d (omega arith))
  accepts (arr xs) p d j h = rw (le→not_ltb 200 d (omega arith)) (accepts_items xs 0 p d j h)
  accepts (obj fs) p d j h = rw (le→not_ltb 200 d (omega arith)) (accepts_fields fs p d j h)

  accepts_items :
      (xs : Items) (i : ℕ) (p : String) (d : ℕ)
      → AreJson xs
      → d + height_items xs ≤ 200
      → assert_items xs i p (d + 1) ≡ none
  accepts_items nil i p d j h = refl
  accepts_items (cons v xs) i p d (j, js) h =
      rw (accepts v (p +++ "/" +++ decimal i) (d + 1) j (omega arith))
        (accepts_items xs (i + 1) p d js (omega arith))

  accepts_fields :
      (fs : Fields) (p : String) (d : ℕ)
      → HoldJson fs
      → d + height_fields fs ≤ 200
      → assert_fields fs p (d + 1) ≡ none
  accepts_fields end p d j h = refl
  accepts_fields (field k undef fs) p d (j, js) h = absurd j
  accepts_fields (field k v fs) p d (j, js) h =
      rw (accepts v (p +++ "/" +++ pointer_segment k) (d + 1) j (omega arith))
        (accepts_fields fs p d js (omega arith))

then_check-none : {E : Type 0} (a b : Option E) → then_check a b ≡ none → (a ≡ none) × (b ≡ none)
then_check-none none b h = (refl, h)
then_check-none (some e) b h = cc

shallow :
    {E : Type 0} (d : ℕ) (e : E) (o : Option E)
    → (if ltb 200 d then some e else o) ≡ none
    → (d ≤ 200) × (o ≡ none)
shallow d e o h = elim (Bool-cases (ltb 200 d)) [
  | inl deep ↦ cc (rw deep at h)
  | inr fine ↦ (ltb-false→le _ _ fine, rw fine at h)
]

mutual
  unfolding assert_json_value

  accepted :
      (v : Value) (p : String) (d : ℕ)
      → assert_json_value v p d ≡ none
      → IsJson v × (d + height v ≤ 200)
  accepted null p d h = (tt, omega (arith, (shallow d (too_deep p) none h).0))
  accepted undef p d h = cc ((shallow d (too_deep p) (some (not_representable p "undefined")) h).1)
  accepted (bool b) p d h = (tt, omega (arith, (shallow d (too_deep p) none h).0))
  accepted (num n) p d h =
      let (le, e) = shallow d (too_deep p) (if is_finite n then none else some (not_finite p)) h in
      elim (Bool-cases (is_finite n)) [
        | inl finite ↦ (finite, omega arith)
        | inr bad ↦ cc (rw bad at e)
      ]
  accepted (str s) p d h = (tt, omega (arith, (shallow d (too_deep p) none h).0))
  accepted (arr xs) p d h =
      let (le, e) = shallow d (too_deep p) (assert_items xs 0 p (d + 1)) h in
      accepted_items xs 0 p d le e
  accepted (obj fs) p d h =
      let (le, e) = shallow d (too_deep p) (assert_fields fs p (d + 1)) h in
      accepted_fields fs p d le e

  accepted_items :
      (xs : Items) (i : ℕ) (p : String) (d : ℕ)
      → d ≤ 200
      → assert_items xs i p (d + 1) ≡ none
      → AreJson xs × (d + height_items xs ≤ 200)
  accepted_items nil i p d le h = (tt, omega arith)
  accepted_items (cons v xs) i p d le h =
      let (e, es) =
        then_check-none (assert_json_value v (p +++ "/" +++ decimal i) (d + 1))
          (assert_items xs (i + 1) p (d + 1)) h in
      let (j, n) = accepted v (p +++ "/" +++ decimal i) (d + 1) e in
      let (js, m) = accepted_items xs (i + 1) p d le es in ((j, js), omega arith)

  accepted_fields :
      (fs : Fields) (p : String) (d : ℕ)
      → d ≤ 200
      → assert_fields fs p (d + 1) ≡ none
      → HoldJson fs × (d + height_fields fs ≤ 200)
  accepted_fields end p d le h = (tt, omega arith)
  accepted_fields (field k undef fs) p d le h = cc
  accepted_fields (field k v fs) p d le h =
      let (e, es) =
        then_check-none (assert_json_value v (p +++ "/" +++ pointer_segment k) (d + 1))
          (assert_fields fs p (d + 1)) h in
      let (j, n) = accepted v (p +++ "/" +++ pointer_segment k) (d + 1) e in
      let (js, m) = accepted_fields fs p d le es in ((j, js), omega arith)

-- `assertJsonValue` returns, on a value at depth `depth`, exactly if JSON can represent the value
-- and no part of it stands deeper than 200 levels.
pub assert_json_value-eq-none_iff :
    (v : Value) (pointer : String) (depth : ℕ)
    → (assert_json_value v pointer depth ≡ none) ↔ (IsJson v × (depth + height v ≤ 200))
assert_json_value-eq-none_iff v pointer depth =
    (accepted v pointer depth, λ (j, h). accepts v pointer depth j h)
