-- ===== src/Integrity/Merkle/Binding.antt =====
-- What a root binds. Two different trees, or a path from a leaf that is not in the tree, have the
-- same root only where two different inputs have one hash.
use native.Mathlib.Decide.{ℕ_discrete}
use mathlib.Core.List.{tail}
use native.Mathlib.Decide.{dec_lt}
use mathlib.Core.Path.{ap₂}
use open_audit_model.Common.{
  ◌≡◌, refl, sym, ap, ◌∙◌, subst, ◌⊎◌, inl, inr, some, List, [], ◌∷◌, ◌++◌, Option-cases, value_or,
  >>=-eq-some, head?, append_inj, some_inj, ℕ, zero, suc, ◌<◌, arith, length, get_elem?, take,
  length-append, get_elem?-take, All, All-take, ◌-◌, ◌≤◌, ◌≢◌, Option, drop, get_elem?-drop,
  All-drop,
}
use open_audit_model.Integrity.Types.{Bytes, Hash, HashAlgorithm, Collision}
use open_audit_model.Integrity.Merkle.{
  decode_digest, node_hash, climb_step, climb, Side, left, right, PathStep, split_point,
  expected_sides, tree_hash,
}
use open_audit_model.Integrity.Merkle.Total.{
  sides_of, Parts-of, tree_hash_leaf, expected_sides_one, expected_sides_below,
  expected_sides_above,
}
use open_audit_model.Integrity.Merkle.Routes.{tree_hash_node_inv}
use open_audit_model.Integrity.Merkle.Inputs.{
  step_input, ClimbInput-append, widen, same_input, NodeInput, ClimbInput,
}
use open_audit_model.Integrity.Merkle.Path.{
  IsOutput, digest-IsOutput, climb-append, tree_hash-IsOutput,
}

-- A path with a last side has a last step.
snoc_sides :
    (path : List PathStep) (es : List Side) (s : Side)
    → es ++ s ∷ [] ≡ sides_of path
    → (p : List PathStep) × (step : PathStep) × (p ++ step ∷ [] ≡ path)
      × (es ≡ sides_of p)
      × (step.side ≡ s)
snoc_sides [] [] s e = cc
snoc_sides [] (t ∷ es) s e = cc
snoc_sides (x ∷ []) [] s e = ([], x, refl, refl, cc e)
snoc_sides (x ∷ y ∷ path) [] s e = cc
snoc_sides (x ∷ path) (t ∷ es) s e =
    let (p, step, ep, es', en) = snoc_sides path es s (ap tail e) in
    (x ∷ p, step, ap (◌∷◌ x) ep, ap₂ ◌∷◌ (ap (λ l. value_or (head? l) t) e) es', en)

module _ (h : Hash) (a : HashAlgorithm) where
  pub node_hash_inj :
      {P Q : Bytes → Type 0} (l r u v : Bytes)
      → P (1 ∷ (l ++ r))
      → Q (1 ∷ (u ++ v))
      → IsOutput a l
      → IsOutput a u
      → node_hash h a l r ≡ node_hash h a u v
      → ((l ≡ u) × (r ≡ v)) ⊎ Collision h a P Q
  node_hash_inj l r u v p q ol ou e = elim (same_input h a (1 ∷ (l ++ r)) (1 ∷ (u ++ v)) p q e) [
    | inl same ↦ inl (append_inj l u (ol.0 ∙ sym ou.0) (ap tail same))
    | inr c ↦ inr c
  ]

  pub climb-IsOutput :
      (x : Bytes) (path : List PathStep) {r : Bytes}
      → IsOutput a x
      → climb h a x path ≡ some r
      → IsOutput a r
  unfolding climb
  climb-IsOutput x [] out e = subst (IsOutput a) (some_inj e) out
  climb-IsOutput x (s ∷ path) out e = elim (Option-cases (decode_digest a s.hash)) [
    | inl bad ↦ cc (rw (bad, climb) at e)
    | inr (b, good) ↦
        climb-IsOutput (climb_step h a s.side b x) path (step_out s.side b) (rw (good, climb) at e)
  ]
    where
      step_out : (side : Side) (b : Bytes) → IsOutput a (climb_step h a side b x)
      step_out left b = digest-IsOutput h a (1 ∷ (b ++ x))
      step_out right b = digest-IsOutput h a (1 ∷ (x ++ b))

  -- The last step of a path, read backwards.
  pub climb_last_inv :
      (x : Bytes) (p : List PathStep) (s : PathStep) {r : Bytes}
      → climb h a x (p ++ s ∷ []) ≡ some r
      → (c y : Bytes) × (climb h a x p ≡ some c)
        × (decode_digest a s.hash ≡ some y)
        × (climb_step h a s.side y c ≡ r)
  unfolding climb
  climb_last_inv x p s e =
      let (c, ec, e') =
        >>=-eq-some (climb h a x p) (λ c. climb h a c (s ∷ []))
          (sym (climb-append h a x p s) ∙ e) in
      elim (Option-cases (decode_digest a s.hash)) [
        | inl bad ↦ cc (rw (bad, climb) at e')
        | inr (y, good) ↦ (c, y, ec, good, some_inj (rw (good, climb) at e'))
      ]

  pub node_hash_inj_right :
      {P Q : Bytes → Type 0} (l r u v : Bytes)
      → P (1 ∷ (l ++ r))
      → Q (1 ∷ (u ++ v))
      → IsOutput a r
      → IsOutput a v
      → node_hash h a l r ≡ node_hash h a u v
      → ((l ≡ u) × (r ≡ v)) ⊎ Collision h a P Q
  node_hash_inj_right l r u v p q or ov e =
      elim (same_input h a (1 ∷ (l ++ r)) (1 ∷ (u ++ v)) p q e) [
        | inl same ↦
            let body : l ++ r ≡ u ++ v = ap tail same in
            let n : length (l ++ r) ≡ length (u ++ v) = ap length body in
            let m : length r ≡ length v = or.0 ∙ sym ov.0 in
            inl (append_inj l u (omega (arith, length-append l r, length-append u v)) body)
        | inr c ↦ inr c
      ]

  -- The last step of a path gives its inputs, and so do the steps before it.
  last_input :
      (x c y : Bytes) (p : List PathStep) (step : PathStep) (side : Side)
      → step.side ≡ side
      → climb h a x p ≡ some c
      → decode_digest a step.hash ≡ some y
      → ClimbInput h a x (p ++ step ∷ []) (step_input h a side y c)
  last_input x c y p step side s ec ey = record {
    before = p;
    step = step;
    after = [];
    split = refl;
    current = c;
    reached = ec;
    sibling = y;
    read = ey;
    is_input = ap (λ d. step_input h a d y c) s;
  }

  one_leaf_binding :
      (leaves : List Bytes) (i : ℕ) (path : List PathStep) {x r : Bytes}
      → length leaves ≡ 1
      → i < length leaves
      → some [] ≡ some (sides_of path)
      → climb h a x path ≡ some r
      → head? leaves ≡ some r
      → get_elem? leaves i ≡ some x
  unfolding climb
  one_leaf_binding [] i path n lt e c t = cc
  one_leaf_binding (y ∷ ys) zero [] n lt e c t = t ∙ sym c
  one_leaf_binding (y ∷ ys) zero (s ∷ path) n lt e c t = cc
  one_leaf_binding (y ∷ ys) (suc i) path n lt e c t = absurd (omega arith)

  -- The claim for one tree and one path.
  abbrev Bound : ℕ → List Bytes → ℕ → Bytes → Type 0
  Bound f leaves i x =
      (path : List PathStep) (r : Bytes)
      → expected_sides f i (length leaves) ≡ some (sides_of path)
      → climb h a x path ≡ some r
      → tree_hash h a f leaves ≡ some r
      → (get_elem? leaves i ≡ some x)
        ⊎ Collision h a (ClimbInput h a x path) (NodeInput h a f leaves)

  -- A found leaf of a part is a leaf of the whole, and so are the inputs.
  moved :
      {o o' : Option Bytes} {x : Bytes} {P Q R S : Bytes → Type 0}
      → o ≡ o'
      → ((z : Bytes) → P z → R z)
      → ((z : Bytes) → Q z → S z)
      → (o ≡ some x) ⊎ Collision h a P Q
      → (o' ≡ some x) ⊎ Collision h a R S
  moved e f g (inl found) = inl (sym e ∙ found)
  moved e f g (inr c) = inr (widen h a f g c)

  module _ (f : ℕ) (leaves : List Bytes) (i : ℕ) {x : Bytes} (out : All (IsOutput a) leaves)
      (ox : IsOutput a x) (many : length leaves ≢ 1) (pos : 1 ≤ length leaves) where
    climb_binding_below :
        i < split_point (length leaves)
        → Bound f (take (split_point (length leaves)) leaves) i x
        → Bound (suc f) leaves i x
    climb_binding_below low ih path r sides up tree =
        let k = split_point (length leaves) in
        let (l, v, el, ev, root) = tree_hash_node_inv h a f leaves many tree in
        let (es, ee, es') =
          >>=-eq-some (expected_sides f i k) (λ s. some (s ++ right ∷ []))
            (sym (expected_sides_below f i (length leaves) many low) ∙ sides) in
        let (p, step, ep, ep', side) = snoc_sides path es right (some_inj es') in
        let (c, y, ec, ey, last) = climb_last_inv x p step (ap (climb h a x) ep ∙ up) in
        let node : node_hash h a c y ≡ node_hash h a l v =
          ap (λ s. climb_step h a s y c) (sym side) ∙ (last ∙ sym root) in
        let ol = tree_hash-IsOutput h a f (take k leaves) (All-take (IsOutput a) k leaves out) el in
        let climbs =
          subst (λ q. ClimbInput h a x q (1 ∷ (c ++ y))) ep
            (last_input x c y p step right side ec ey) in
        elim (node_hash_inj c y l v climbs (NodeInput.at_root l v many el ev)
          (climb-IsOutput x p ox ec) ol node) [
            | inr collision ↦ inr collision
            | inl same ↦
                moved (get_elem?-take k i leaves low)
                  (λ z q.
                    subst (λ w. ClimbInput h a x w z) ep
                      (ClimbInput-append h a x p (step ∷ []) z q))
                  (λ z q. NodeInput.in_left many q)
                  (ih p l
                    (ap (expected_sides f i) (Parts-of leaves pos many).left_length
                      ∙ (ee ∙ ap some ep'))
                    (ec ∙ ap some same.0) el)
          ]

    climb_binding_above :
        split_point (length leaves) ≤ i
        → Bound f (drop (split_point (length leaves)) leaves) (i - split_point (length leaves)) x
        → Bound (suc f) leaves i x
    climb_binding_above high ih path r sides up tree =
        let k = split_point (length leaves) in
        let (l, v, el, ev, root) = tree_hash_node_inv h a f leaves many tree in
        let (es, ee, es') =
          >>=-eq-some (expected_sides f (i - k) (length leaves - k)) (λ s. some (s ++ left ∷ []))
            (sym (expected_sides_above f i (length leaves) many high) ∙ sides) in
        let (p, step, ep, ep', side) = snoc_sides path es left (some_inj es') in
        let (c, y, ec, ey, last) = climb_last_inv x p step (ap (climb h a x) ep ∙ up) in
        let node : node_hash h a y c ≡ node_hash h a l v =
          ap (λ s. climb_step h a s y c) (sym side) ∙ (last ∙ sym root) in
        let ov = tree_hash-IsOutput h a f (drop k leaves) (All-drop (IsOutput a) k leaves out) ev in
        let climbs =
          subst (λ q. ClimbInput h a x q (1 ∷ (y ++ c))) ep
            (last_input x c y p step left side ec ey) in
        elim (node_hash_inj_right y c l v climbs (NodeInput.at_root l v many el ev)
          (climb-IsOutput x p ox ec) ov node) [
            | inr collision ↦ inr collision
            | inl same ↦
                moved (get_elem?-drop k i leaves high)
                  (λ z q.
                    subst (λ w. ClimbInput h a x w z) ep
                      (ClimbInput-append h a x p (step ∷ []) z q))
                  (λ z q. NodeInput.in_right many q)
                  (ih p v
                    (ap (expected_sides f (i - k)) (Parts-of leaves pos many).right_length
                      ∙ (ee ∙ ap some ep'))
                    (ec ∙ ap some same.1) ev)
          ]

  pub climb_binding :
      (f : ℕ) (leaves : List Bytes) (i : ℕ) {x : Bytes}
      → All (IsOutput a) leaves
      → IsOutput a x
      → i < length leaves
      → Bound f leaves i x
  unfolding tree_hash
  climb_binding zero leaves i out ox lt path r sides up tree = cc
  climb_binding (suc f) leaves i {x} out ox lt path r sides up tree =
      elim (ℕ_discrete (length leaves) 1) [
        | yes one ↦ inl (
            one_leaf_binding leaves i path one lt
              (sym (expected_sides_one f i (length leaves) one) ∙ sides) up
              (sym (tree_hash_leaf h a f leaves one) ∙ tree))
        | no many ↦
            let k = split_point (length leaves) in
            let pos : 1 ≤ length leaves = omega arith in
            let parts = Parts-of leaves pos many in
            elim (dec_lt i k) [
              | yes low ↦
                  climb_binding_below f leaves i out ox many pos low
                    (climb_binding f (take k leaves) i (All-take (IsOutput a) k leaves out) ox
                      (omega (arith, parts.left_length)))
                    path r sides up tree
              | no high ↦
                  climb_binding_above f leaves i out ox many pos (omega arith)
                    (climb_binding f (drop k leaves) (i - k) (All-drop (IsOutput a) k leaves out) ox
                      (omega (arith, parts.right_length)))
                    path r sides up tree
            ]
      ]
