-- ===== src/Integrity/Merkle/Injective.antt =====
-- Two trees with one root are one tree, or show a collision; a leaf never meets a node.
use mathlib.Core.List.{tail}
use mathlib.Core.Path.{ap₂}
use open_audit_model.Common.{
  ℕ, zero, suc, ◌≡◌, refl, sym, ap, ◌∙◌, ◌⊎◌, inl, inr, Option, some, List, [], ◌∷◌, ◌++◌, map,
  arith, value_or, length, take, drop, head?, take-append-drop, map-take, All, All-take, map-drop,
  some_inj, none, subst, ◌≢◌, get_elem?,
}
use open_audit_model.Integrity.Types.{Bytes, Hash, HashAlgorithm, Collision}
use open_audit_model.Integrity.Merkle.{tree_hash, split_point, leaf_hash, node_hash}
use open_audit_model.Integrity.Merkle.Routes.{tree_hash_node_inv}
use open_audit_model.Integrity.Merkle.Path.{IsOutput, digest-IsOutput, tree_hash-IsOutput}
use open_audit_model.Integrity.Merkle.Inputs.{
  TreeInput, of_leaf, of_node, NodeInput, Elem-take, Elem-drop, widen, same_input,
}
use open_audit_model.Integrity.Merkle.Binding.{node_hash_inj}

-- A tree over the digests `bs`.
module _ (h : Hash) (a : HashAlgorithm) where
  abbrev pub tree : ℕ → List Bytes → Option Bytes
  tree f bs = tree_hash h a f (map (leaf_hash h a) bs)

  pub leaves-IsOutput : (bs : List Bytes) → All (IsOutput a) (map (leaf_hash h a) bs)
  leaves-IsOutput [] = tt
  leaves-IsOutput (b ∷ bs) = (digest-IsOutput h a (0 ∷ b), leaves-IsOutput bs)

  -- How a root comes about: one leaf, or a node over two smaller trees.
  pub data Root (bs : List Bytes) (r : Bytes) : ℕ → Type 0 where
    one_leaf : {f : ℕ} (b : Bytes) → bs ≡ b ∷ [] → leaf_hash h a b ≡ r → Root bs r f
    inner_node :
        {f : ℕ} (k : ℕ) (x y : Bytes)
        → k ≡ split_point (length (map (leaf_hash h a) bs))
        → length (map (leaf_hash h a) bs) ≢ 1
        → tree f (take k bs) ≡ some x
        → tree f (drop k bs) ≡ some y
        → IsOutput a x
        → node_hash h a x y ≡ r
        → Root bs r (suc f)

  -- The recursion over no leaves does not end.
  tree_hash_nil : (f : ℕ) → tree_hash h a f [] ≡ none
  unfolding tree_hash split_point
  tree_hash_nil zero = refl
  tree_hash_nil (suc f) = rw (tree_hash_nil f)

  pub Root-of : (f : ℕ) (bs : List Bytes) {r : Bytes} → tree f bs ≡ some r → Root bs r f
  unfolding tree_hash
  Root-of zero bs e = cc
  Root-of (suc f) [] e = cc (tree_hash_nil (suc f))
  Root-of (suc f) (b ∷ []) e = one_leaf b refl (some_inj e)
  Root-of (suc f) (b ∷ c ∷ bs) e =
      let ls = map (leaf_hash h a) (b ∷ c ∷ bs) in
      let k = split_point (length ls) in
      let many : length ls ≢ 1 = omega arith in
      let (x, y, ex, ey, root) = tree_hash_node_inv h a f ls many e in
      inner_node k x y refl many
        (ap (tree_hash h a f) (map-take (leaf_hash h a) k (b ∷ c ∷ bs)) ∙ ex)
        (ap (tree_hash h a f) (map-drop (leaf_hash h a) k (b ∷ c ∷ bs)) ∙ ey)
        (tree_hash-IsOutput h a f (take k ls)
          (All-take (IsOutput a) k ls (leaves-IsOutput (b ∷ c ∷ bs))) ex)
        root

  -- The inputs of the two parts of a tree are inputs of the tree.
  low_input :
      (f k : ℕ) (bs : List Bytes) (z : Bytes)
      → k ≡ split_point (length (map (leaf_hash h a) bs))
      → length (map (leaf_hash h a) bs) ≢ 1
      → TreeInput h a f (take k bs) z
      → TreeInput h a (suc f) bs z
  low_input f k bs z e many (of_leaf b m) = of_leaf b (Elem-take k bs m)
  low_input f k bs z e many (of_node w n) = of_node z (
      NodeInput.in_left many (
        subst (λ ls. NodeInput h a f ls z)
          (map-take (leaf_hash h a) k bs ∙ ap (λ m. take m (map (leaf_hash h a) bs)) e) n))

  high_input :
      (f k : ℕ) (bs : List Bytes) (z : Bytes)
      → k ≡ split_point (length (map (leaf_hash h a) bs))
      → length (map (leaf_hash h a) bs) ≢ 1
      → TreeInput h a f (drop k bs) z
      → TreeInput h a (suc f) bs z
  high_input f k bs z e many (of_leaf b m) = of_leaf b (Elem-drop k bs m)
  high_input f k bs z e many (of_node w n) = of_node z (
      NodeInput.in_right many (
        subst (λ ls. NodeInput h a f ls z)
          (map-drop (leaf_hash h a) k bs ∙ ap (λ m. drop m (map (leaf_hash h a) bs)) e) n))

  -- The input at the root of a tree.
  node_input :
      (f k : ℕ) (bs : List Bytes) (x y : Bytes)
      → k ≡ split_point (length (map (leaf_hash h a) bs))
      → length (map (leaf_hash h a) bs) ≢ 1
      → tree f (take k bs) ≡ some x
      → tree f (drop k bs) ≡ some y
      → TreeInput h a (suc f) bs (1 ∷ (x ++ y))
  node_input f k bs x y e many ex ey =
      let ls = map (leaf_hash h a) bs in
      of_node (1 ∷ (x ++ y)) (
        NodeInput.at_root x y many
          (ap (tree_hash h a f) (ap (λ m. take m ls) (sym e) ∙ sym (map-take (leaf_hash h a) k bs))
            ∙ ex)
          (ap (tree_hash h a f) (ap (λ m. drop m ls) (sym e) ∙ sym (map-drop (leaf_hash h a) k bs))
            ∙ ey))

  only_leaf : (f : ℕ) (bs : List Bytes) (b : Bytes) → bs ≡ b ∷ [] → TreeInput h a f bs (0 ∷ b)
  only_leaf f bs b e = of_leaf b (zero, ap (λ xs. get_elem? xs 0) e)

  not_a_leaf : (b z : Bytes) → 0 ∷ b ≢ 1 ∷ z
  not_a_leaf b z p = absurd (omega (arith, ap (λ l. value_or (head? l) 0) p))

  -- Two digests of inputs that agree where they should not.
  abbrev Meets : ℕ → ℕ → List Bytes → List Bytes → Type 0
  Meets f g bs cs = Collision h a (TreeInput h a f bs) (TreeInput h a g cs)

  pub trees_binding :
      (f g : ℕ) (bs cs : List Bytes) (r : Bytes)
      → Root bs r f
      → Root cs r g
      → (bs ≡ cs) ⊎ Meets f g bs cs
  trees_binding f g bs cs r (one_leaf b eb hb) (one_leaf c ec hc) =
      elim (same_input h a (0 ∷ b) (0 ∷ c) (only_leaf f bs b eb) (only_leaf g cs c ec)
        (hb ∙ sym hc)) [
          | inl same ↦ inl (eb ∙ (ap (λ l. l ∷ []) (ap tail same) ∙ sym ec))
          | inr x ↦ inr x
        ]
  trees_binding f (suc g) bs cs r (one_leaf b eb hb) (inner_node k x y ek many ex ey ox root) =
      inr (record {
        left = 0 ∷ b;
        right = 1 ∷ (x ++ y);
        from_left = only_leaf f bs b eb;
        from_right = node_input g k cs x y ek many ex ey;
        differ = not_a_leaf b (x ++ y);
        agree = hb ∙ sym root;
      })
  trees_binding (suc f) g bs cs r (inner_node k x y ek many ex ey ox root) (one_leaf c ec hc) =
      inr (record {
        left = 1 ∷ (x ++ y);
        right = 0 ∷ c;
        from_left = node_input f k bs x y ek many ex ey;
        from_right = only_leaf g cs c ec;
        differ = λ p. not_a_leaf c (x ++ y) (sym p);
        agree = root ∙ sym hc;
      })
  trees_binding (suc f) (suc g) bs cs r (inner_node k x y ek mk ex ey ox root)
        (inner_node m u v em mm eu ev ou root') =
      elim (node_hash_inj h a x y u v (node_input f k bs x y ek mk ex ey)
        (node_input g m cs u v em mm eu ev) ox ou (root ∙ sym root')) [
          | inr c ↦ inr c
          | inl same ↦
              joined
                (trees_binding f g (take k bs) (take m cs) x (Root-of f (take k bs) ex)
                  (Root-of g (take m cs) (eu ∙ ap some (sym same.0))))
                (trees_binding f g (drop k bs) (drop m cs) y (Root-of f (drop k bs) ey)
                  (Root-of g (drop m cs) (ev ∙ ap some (sym same.1))))
        ]
    where
      joined :
          (take k bs ≡ take m cs) ⊎ Meets f g (take k bs) (take m cs)
          → (drop k bs ≡ drop m cs) ⊎ Meets f g (drop k bs) (drop m cs)
          → (bs ≡ cs) ⊎ Meets (suc f) (suc g) bs cs
      joined (inr c) q =
          inr (widen h a (λ z. low_input f k bs z ek mk) (λ z. low_input g m cs z em mm) c)
      joined (inl p) (inr c) =
          inr (widen h a (λ z. high_input f k bs z ek mk) (λ z. high_input g m cs z em mm) c)
      joined (inl p) (inl q) =
          inl (sym (take-append-drop k bs) ∙ (ap₂ ◌++◌ p q ∙ take-append-drop m cs))
