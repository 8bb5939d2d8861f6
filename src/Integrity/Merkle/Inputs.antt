-- ===== src/Integrity/Merkle/Inputs.antt =====
-- What `merkleRoot` and `rootFromPath` give to the hash function, and collisions between these.
use native.Mathlib.Decide.{ℕ_discrete}
use open_audit_model.Common.{
  ℕ, zero, suc, String, ◌≡◌, sym, ap, ◌∙◌, ◌≢◌, ◌⊎◌, inl, inr, some, List, [], ◌∷◌, ◌++◌, map,
  length, get_elem?, take, drop, append_assoc,
}
use open_audit_model.Integrity.Types.{Bytes, HashAlgorithm, Hash, Collision}
use open_audit_model.Integrity.Merkle.{
  split_point, decode_digest, leaf_hash, tree_hash, climb, Side, left, right, PathStep,
}

-- An element of a list.
abbrev pub Elem {ℓ} : {A : Type ℓ} → A → List A → Type ℓ
Elem x xs = (i : ℕ) × (get_elem? xs i ≡ some x)

pub Elem-take {ℓ} : {A : Type ℓ} (k : ℕ) (xs : List A) {x : A} → Elem x (take k xs) → Elem x xs
Elem-take zero xs (i, e) = cc
Elem-take (suc k) [] (i, e) = cc
Elem-take (suc k) (y ∷ xs) (zero, e) = (zero, e)
Elem-take (suc k) (y ∷ xs) (suc i, e) = let (j, f) = Elem-take k xs (i, e) in (suc j, f)

pub Elem-drop {ℓ} : {A : Type ℓ} (k : ℕ) (xs : List A) {x : A} → Elem x (drop k xs) → Elem x xs
Elem-drop zero xs m = m
Elem-drop (suc k) [] m = m
Elem-drop (suc k) (y ∷ xs) m = let (j, f) = Elem-drop k xs m in (suc j, f)

Bytes_discrete : Discrete Bytes
Bytes_discrete = hlevel ℕ_discrete

module _ (h : Hash) (a : HashAlgorithm) where
  -- The inputs of the nodes of a tree over `leaves`.
  pub data NodeInput : ℕ → List Bytes → Bytes → Type 0 where
    at_root :
        {f : ℕ} {leaves : List Bytes} (x y : Bytes)
        → length leaves ≢ 1
        → tree_hash h a f (take (split_point (length leaves)) leaves) ≡ some x
        → tree_hash h a f (drop (split_point (length leaves)) leaves) ≡ some y
        → NodeInput (suc f) leaves (1 ∷ (x ++ y))
    in_left :
        {f : ℕ} {leaves : List Bytes} {z : Bytes}
        → length leaves ≢ 1
        → NodeInput f (take (split_point (length leaves)) leaves) z
        → NodeInput (suc f) leaves z
    in_right :
        {f : ℕ} {leaves : List Bytes} {z : Bytes}
        → length leaves ≢ 1
        → NodeInput f (drop (split_point (length leaves)) leaves) z
        → NodeInput (suc f) leaves z

  -- The inputs of a tree over the digests `bs`: its leaves and its nodes.
  pub data TreeInput (f : ℕ) (bs : List Bytes) : Bytes → Type 0 where
    of_leaf : (b : Bytes) → Elem b bs → TreeInput f bs (0 ∷ b)
    of_node : (z : Bytes) → NodeInput f (map (leaf_hash h a) bs) z → TreeInput f bs z

  -- What `merkleRoot` hashes.
  pub record RootInput (ds : List String) (z : Bytes) : Type 0 where
    pub digests : List Bytes
    pub decoded : map (decode_digest a) ds ≡ map some digests
    pub in_tree : TreeInput (length ds) digests z

  -- What one round of the loop of `rootFromPath` hashes.
  abbrev pub step_input : Side → Bytes → Bytes → Bytes
  step_input left sibling current = 1 ∷ (sibling ++ current)
  step_input right sibling current = 1 ∷ (current ++ sibling)

  -- What the loop hashes, from `x`.
  pub record ClimbInput (x : Bytes) (path : List PathStep) (z : Bytes) : Type 0 where
    pub before : List PathStep
    pub step : PathStep
    pub after : List PathStep
    pub split : before ++ step ∷ after ≡ path
    pub current : Bytes
    pub reached : climb h a x before ≡ some current
    pub sibling : Bytes
    pub read : decode_digest a step.hash ≡ some sibling
    pub is_input : step_input step.side sibling current ≡ z

  -- What `rootFromPath` hashes.
  pub data PathInput (leaf : Bytes) (path : List PathStep) : Bytes → Type 0 where
    of_start : PathInput leaf path (0 ∷ leaf)
    of_step : (z : Bytes) → ClimbInput (leaf_hash h a leaf) path z → PathInput leaf path z

  pub ClimbInput-append :
      (x : Bytes) (path more : List PathStep) (z : Bytes)
      → ClimbInput x path z
      → ClimbInput x (path ++ more) z
  ClimbInput-append x path more z c = record {
    before = c.before;
    step = c.step;
    after = c.after ++ more;
    split = sym (append_assoc c.before (c.step ∷ c.after) more) ∙ ap (λ p. p ++ more) c.split;
    current = c.current;
    reached = c.reached;
    sibling = c.sibling;
    read = c.read;
    is_input = c.is_input;
  }

  pub widen :
      {P Q R S : Bytes → Type 0}
      → ((z : Bytes) → P z → R z)
      → ((z : Bytes) → Q z → S z)
      → Collision h a P Q
      → Collision h a R S
  widen f g c = record {
    left = c.left;
    right = c.right;
    from_left = f c.left c.from_left;
    from_right = g c.right c.from_right;
    differ = c.differ;
    agree = c.agree;
  }

  -- Two inputs with one hash are equal, or a collision.
  pub same_input :
      {P Q : Bytes → Type 0} (xs ys : Bytes)
      → P xs
      → Q ys
      → h.digest a xs ≡ h.digest a ys
      → (xs ≡ ys) ⊎ Collision h a P Q
  same_input xs ys p q e = elim (Bytes_discrete xs ys) [
    | yes same ↦ inl same
    | no other ↦
        inr (record {
          left = xs;
          right = ys;
          from_left = p;
          from_right = q;
          differ = other;
          agree = e;
        })
  ]
