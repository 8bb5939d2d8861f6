-- ===== src/Privacy/Depth.antt =====
-- What the measured depth says of the depth of a value.
use open_audit_model.Common.{
  ℕ, ◌+◌, ◌≤◌, ◌<◌, ◌↔◌, inl, inr, arith, ltb, leb, if◌then◌else◌, ltb→lt, leb→le, ltb-false→le,
  Bool-cases, suc, max, ◌≡◌, List, [], ◌∷◌, ◌++◌,
}
use open_audit_model.Json.{
  count_items, Items, Value, undef, null, obj, arr, num, bool, str, Fields, field, end, cons, nil,
}
use open_audit_model.Json.Shape.{height, height_items, height_fields}
use open_audit_model.Privacy.SizeAnalysis.{
  max_profile_depth, at_depth, with_array, measure, measure_items, measure_fields, Measures,
  with_property, no_measures, profile_value, signal_over, exceeded_signals, Signal, serialized_size,
  properties, nesting_depth, array_length, string_length, SizeThresholds,
}

leaf_depth :
    (k d : ℕ) (c : Measures) → ((at_depth d c).max_depth ≤ k) ↔ ((c.max_depth ≤ k) × (d + 0 ≤ k))
leaf_depth k d c = (λ e. go.0 e, λ p. go.1 p)
  where
    over : (m d k : ℕ) → ((if ltb m d then d else m) ≤ k) ↔ ((m ≤ k) × (d + 0 ≤ k))
    over m d k = elim (Bool-cases (ltb m d)) [
      | inl t ↦ (
        λ e. let l : d ≤ k = rw t at e in (omega (arith, ltb→lt m d t), omega arith),
        λ p. rw t (omega (arith, p.1)),
      )
      | inr f ↦ (
        λ e. let l : m ≤ k = rw f at e in (omega arith, omega (arith, ltb-false→le m d f)),
        λ p. rw f p.0,
      )
    ]

    go : ((at_depth d c).max_depth ≤ k) ↔ ((c.max_depth ≤ k) × (d + 0 ≤ k))
    go = over c.max_depth d k

module _ (k : ℕ) (below : k < max_profile_depth) where
  too_deep :
      (d : ℕ) (c : Measures) (h : ℕ)
      → max_profile_depth ≤ d
      → ((at_depth d c).max_depth ≤ k) ↔ ((c.max_depth ≤ k) × (d + h ≤ k))
  too_deep d c h o =
      (λ l. absurd (omega (arith, ((leaf_depth k d c).0 l).1)), λ p. absurd (omega (arith, p.1)))

  reached :
      {m : ℕ} (d : ℕ) (c : Measures) (h : ℕ)
      → (m ≤ k) ↔ (((at_depth d c).max_depth ≤ k) × (d + h ≤ k))
      → (m ≤ k) ↔ ((c.max_depth ≤ k) × (d + h ≤ k))
  reached d c h f = (
    λ l. let (a, b) = f.0 l in (((leaf_depth k d c).0 a).0, b),
    λ p. f.1 ((leaf_depth k d c).1 (p.0, omega (arith, p.1)), p.1),
  )

  member_step :
      {m : ℕ} (d : ℕ) (c next : Measures) (h hs : ℕ)
      → (next.max_depth ≤ k) ↔ ((c.max_depth ≤ k) × ((d + 1) + h ≤ k))
      → (m ≤ k) ↔ ((next.max_depth ≤ k) × (d + hs ≤ k))
      → (m ≤ k) ↔ ((c.max_depth ≤ k) × (d + max (suc h) hs ≤ k))
  member_step d c next h hs f g = (
    λ l. let (a, b) = g.0 l in let (p, q) = f.0 a in (p, omega (arith, b, q)),
    λ p. g.1 (f.1 (p.0, omega (arith, p.1)), omega (arith, p.1)),
  )

  mutual
    unfolding measure measure_items measure_fields

    measure_iff :
        (v : Value) (d : ℕ) (c : Measures)
        → ((measure v d c).max_depth ≤ k) ↔ ((c.max_depth ≤ k) × (d + height v ≤ k))
    measure_iff null d c = leaf_depth k d c
    measure_iff undef d c = leaf_depth k d c
    measure_iff (bool b) d c = leaf_depth k d c
    measure_iff (num n) d c = leaf_depth k d c
    measure_iff (str s) d c = elim (Bool-cases (leb max_profile_depth d)) [
      | inl t ↦ rw t (leaf_depth k d c)
      | inr f ↦ rw f (leaf_depth k d c)
    ]
    measure_iff (arr xs) d c = elim (Bool-cases (leb max_profile_depth d)) [
      | inl t ↦ rw t (too_deep d c (height_items xs) (leb→le _ _ t))
      | inr f ↦ rw f (
          reached d c (height_items xs) (
            items_iff xs d (with_array (count_items xs) (at_depth d c))
              (λ l. omega (arith, ((leaf_depth k d c).0 l).1))))
    ]
    measure_iff (obj fs) d c = elim (Bool-cases (leb max_profile_depth d)) [
      | inl t ↦ rw t (too_deep d c (height_fields fs) (leb→le _ _ t))
      | inr f ↦ rw f (
          reached d c (height_fields fs)
            (fields_iff fs d (at_depth d c) (λ l. omega (arith, ((leaf_depth k d c).0 l).1))))
    ]

    items_iff :
        (xs : Items) (d : ℕ) (c : Measures)
        → (c.max_depth ≤ k → d ≤ k)
        → ((measure_items xs d c).max_depth ≤ k) ↔ ((c.max_depth ≤ k) × (d + height_items xs ≤ k))
    items_iff nil d c r = (λ l. (l, omega (arith, r l)), λ p. p.0)
    items_iff (cons v xs) d c r =
        member_step d c (measure v (d + 1) c) (height v) (height_items xs) (measure_iff v (d + 1) c)
          (items_iff xs d (measure v (d + 1) c)
            (λ l. omega (arith, ((measure_iff v (d + 1) c).0 l).1)))

    fields_iff :
        (fs : Fields) (d : ℕ) (c : Measures)
        → (c.max_depth ≤ k → d ≤ k)
        → ((measure_fields fs d c).max_depth ≤ k) ↔ ((c.max_depth ≤ k) × (d + height_fields fs ≤ k))
    fields_iff end d c r = (λ l. (l, omega (arith, r l)), λ p. p.0)
    fields_iff (field key v fs) d c r =
        member_step d c (measure v (d + 1) (with_property c)) (height v) (height_fields fs)
          (measure_iff v (d + 1) (with_property c))
          (fields_iff fs d (measure v (d + 1) (with_property c))
            (λ l. omega (arith, ((measure_iff v (d + 1) (with_property c)).0 l).1)))

  -- Below the bound of the traversal, the measured depth is at most `k` exactly for the values that
  -- are nested at most `k` deep.
  pub profile_value-depth :
      (v : Value) → ((profile_value v).measures.max_depth ≤ k) ↔ (height v ≤ k)
  unfolding profile_value
  profile_value-depth v = (
    λ l. omega (arith, ((measure_iff v 0 no_measures).0 l).1),
    λ l. (measure_iff v 0 no_measures).1 (omega arith, omega arith),
  )

-- A value that exceeds none of the thresholds is nested at most as deep as they admit, when that is
-- below the bound of the traversal.
pub exceeded_signals-height :
    (v : Value) (thresholds : SizeThresholds)
    → thresholds.max_depth < max_profile_depth
    → exceeded_signals (profile_value v) thresholds ≡ []
    → height v ≤ thresholds.max_depth
unfolding exceeded_signals
exceeded_signals-height v t below e =
    let p = profile_value v in
    (profile_value-depth t.max_depth below v).0 (
      no_depth (signal_over serialized_size p.serialized_bytes t.serialized_bytes)
        (signal_over properties p.measures.total_properties t.total_properties) p.measures.max_depth
        (signal_over array_length p.measures.max_array_length t.max_array_length
          ++ signal_over string_length p.measures.longest_string t.longest_string)
        e)
  where
    no_depth :
        (xs ys : List Signal) (m : ℕ) (zs : List Signal)
        → xs ++ (ys ++ (signal_over nesting_depth m t.max_depth ++ zs)) ≡ []
        → m ≤ t.max_depth
    no_depth [] [] m zs e = elim (Bool-cases (ltb t.max_depth m)) [
      | inl o ↦ cc (rw o at e)
      | inr f ↦ ltb-false→le t.max_depth m f
    ]
    no_depth (x ∷ xs) ys m zs e = cc e
    no_depth [] (y ∷ ys) m zs e = cc e
