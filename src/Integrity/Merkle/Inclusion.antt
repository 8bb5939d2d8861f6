-- ===== src/Integrity/Merkle/Inclusion.antt =====
-- Inclusion proofs: what `merkleRoot`, `auditPath`, `expectedSides` and `rootFromPath` promise one
-- another, and what a root binds.
use mathlib.Core.List.{tail}
use mathlib.Core.Path.{ap₂}
use open_audit_model.Common.{
  ℕ, zero, suc, ◌*◌, ◌<◌, String, ◌≡◌, refl, sym, ap, ◌∙◌, ◌⊎◌, inl, inr, some, List, [], ◌∷◌, map,
  arith, ◌==◌, Bool-cases, ◌>>=◌, length, get_elem?, all, head?, length-map, All, get_elem?_total,
  get_elem?-map, some_inj, utf16_length,
}
use open_audit_model.Integrity.Types.{Bytes, Hash, HashAlgorithm, Collision, digest_byte_length}
use open_audit_model.Integrity.Hex.{to_hex, is_hex_digest}
use open_audit_model.Integrity.Hex.RoundTrip.{to_hex-from_hex, hex_pairs_of_digest}
use open_audit_model.Integrity.Merkle.{
  merkle_root, decode_digest, expected_sides, leaf_hash, tree_hash, audit_path, root_from_path, ok,
  PathStep,
}
use open_audit_model.Integrity.Merkle.Path.{climb-path_over, digest-IsOutput}
use open_audit_model.Integrity.Merkle.Roots.{
  IsDigest, Decodes, length_of_Decodes, merkle_root_inv, audit_path_inv, merkle_root_total,
  audit_path_total,
}
use open_audit_model.Integrity.Merkle.Inputs.{
  of_leaf, of_node, of_start, of_step, ClimbInput, NodeInput, PathInput, RootInput, same_input,
  widen,
}
use open_audit_model.Integrity.Merkle.Binding.{climb_binding}
use open_audit_model.Integrity.Merkle.Injective.{trees_binding, tree, leaves-IsOutput, Root-of}

-- A decoded digest is encoded by its text alone.
to_hex-decode_digest :
    (a : HashAlgorithm) (d : String) {b : Bytes} → decode_digest a d ≡ some b → to_hex b ≡ d
unfolding decode_digest
to_hex-decode_digest a d e = elim (Bool-cases (is_hex_digest d)) [
  | inr bad ↦ cc (rw bad at e)
  | inl good ↦ elim (Bool-cases (utf16_length d == digest_byte_length a * 2)) [
    | inr bad ↦ cc (rw (good, bad) at e)
    | inl fits ↦
        ap to_hex (sym (some_inj (rw (good, fits) at e)))
        ∙ to_hex-from_hex d (hex_pairs_of_digest d good)
  ]
]

Decodes-inj :
    (a : HashAlgorithm) (ds es : List String) (bs : List Bytes)
    → Decodes a ds bs
    → Decodes a es bs
    → ds ≡ es
Decodes-inj a [] [] bs p q = refl
Decodes-inj a [] (e ∷ es) bs p q = cc
Decodes-inj a (d ∷ ds) [] bs p q = cc
Decodes-inj a (d ∷ ds) (e ∷ es) [] p q = cc
Decodes-inj a (d ∷ ds) (e ∷ es) (b ∷ bs) p q =
    ap₂ ◌∷◌
      (sym (to_hex-decode_digest a d (first d ds p)) ∙ to_hex-decode_digest a e (first e es q))
      (Decodes-inj a ds es bs (ap tail p) (ap tail q))
  where
    first :
        (c : String) (cs : List String) → Decodes a (c ∷ cs) (b ∷ bs) → decode_digest a c ≡ some b
    first c cs r = some_inj (ap head? r)

Decodes-unique :
    (a : HashAlgorithm) (ds : List String) (bs cs : List Bytes)
    → Decodes a ds bs
    → Decodes a ds cs
    → bs ≡ cs
Decodes-unique a ds [] [] p q = refl
Decodes-unique a ds [] (c ∷ cs) p q = cc
Decodes-unique a ds (b ∷ bs) [] p q = cc
Decodes-unique a [] (b ∷ bs) (c ∷ cs) p q = cc
Decodes-unique a (d ∷ ds) (b ∷ bs) (c ∷ cs) p q =
    ap₂ ◌∷◌ (some_inj (sym (some_inj (ap head? p)) ∙ some_inj (ap head? q)))
      (Decodes-unique a ds bs cs (ap tail p) (ap tail q))

Decodes-at :
    (a : HashAlgorithm) (ds : List String) (bs : List Bytes) (i : ℕ)
    → Decodes a ds bs
    → (get_elem? ds i >>= decode_digest a) ≡ get_elem? bs i
Decodes-at a [] [] i p = refl
Decodes-at a [] (b ∷ bs) i p = cc
Decodes-at a (d ∷ ds) [] i p = cc
Decodes-at a (d ∷ ds) (b ∷ bs) zero p = some_inj (ap head? p)
Decodes-at a (d ∷ ds) (b ∷ bs) (suc i) p = Decodes-at a ds bs i (ap tail p)

module _ (h : Hash) (a : HashAlgorithm) where
  -- For digests of the algorithm and an index within the list, `auditPath` and `merkleRoot` return;
  -- the path's sides are those that `expectedSides` gives for the index and the number of leaves;
  -- and `rootFromPath` from the digest at the index, along the path, is the root.
  pub root_from_path-audit_path :
      (ds : List String) (i : ℕ)
      → i < length ds
      → All (IsDigest a) ds
      → (path : List PathStep) × (root leaf : Bytes) × (audit_path h a ds i ≡ ok path)
        × (merkle_root h a ds ≡ ok root)
        × ((get_elem? ds i >>= decode_digest a) ≡ some leaf)
        × (expected_sides (length ds) i (length ds) ≡ some (map (λ s. s.side) path))
        × (root_from_path h a leaf path ≡ some root)
  unfolding root_from_path
  root_from_path-audit_path ds i lt all =
      let (path, ep, sides) = audit_path_total h a ds i lt all in
      let (root, er) = merkle_root_total h a ds (omega arith) all in
      let (bs, es, lt', found) = audit_path_inv h a ds i ep in
      let (cs, es', pos, tree) = merkle_root_inv h a ds er in
      let same = Decodes-unique a ds cs bs es' es in
      let (leaf, el) = get_elem?_total bs i (omega (arith, length_of_Decodes h a ds bs es)) in
      (
        path,
        root,
        leaf,
        ep,
        er,
        Decodes-at a ds bs i es ∙ el,
        sides,
        climb-path_over h a (length ds) (map (leaf_hash h a) bs) i (leaves-IsOutput h a bs)
            (get_elem?-map (leaf_hash h a) bs i el) found
            (ap (λ l. tree_hash h a (length ds) (map (leaf_hash h a) l)) (sym same) ∙ tree),
      )

  -- A path of the expected shape that leads from `leaf` to the root of the digests `ds` shows that
  -- the digest at the index is `leaf`, or that an input that `rootFromPath` hashes along the path has
  -- the hash of a different input that `merkleRoot` hashes for `ds`.
  pub inclusion_binding :
      (ds : List String) (i : ℕ) (leaf root : Bytes) (path : List PathStep)
      → merkle_root h a ds ≡ ok root
      → i < length ds
      → expected_sides (length ds) i (length ds) ≡ some (map (λ s. s.side) path)
      → root_from_path h a leaf path ≡ some root
      → ((get_elem? ds i >>= decode_digest a) ≡ some leaf)
        ⊎ Collision h a (PathInput h a leaf path) (RootInput h a ds)
  unfolding root_from_path
  inclusion_binding ds i leaf root path er lt sides up =
      let (bs, es, pos, tree) = merkle_root_inv h a ds er in
      let n : length ds ≡ length (map (leaf_hash h a) bs) =
        length_of_Decodes h a ds bs es ∙ sym (length-map (leaf_hash h a) bs) in
      let (b, eb) = get_elem?_total bs i (omega (arith, length_of_Decodes h a ds bs es)) in
      leaf_found bs b es eb (
        climb_binding h a (length ds) (map (leaf_hash h a) bs) i (leaves-IsOutput h a bs)
          (digest-IsOutput h a (0 ∷ leaf)) (omega arith) path root
          (ap (expected_sides (length ds) i) (sym n) ∙ sides) up tree)
    where
      leaf_found :
          (bs : List Bytes) (b : Bytes)
          → Decodes a ds bs
          → get_elem? bs i ≡ some b
          → (get_elem? (map (leaf_hash h a) bs) i ≡ some (leaf_hash h a leaf))
            ⊎ Collision h a
                (ClimbInput h a (leaf_hash h a leaf) path)
                (NodeInput h a (length ds) (map (leaf_hash h a) bs))
          → ((get_elem? ds i >>= decode_digest a) ≡ some leaf)
            ⊎ Collision h a (PathInput h a leaf path) (RootInput h a ds)
      leaf_found bs b es eb (inr c) = inr (
          widen h a (λ z. of_step z)
            (λ z n. record { digests = bs; decoded = es; in_tree = of_node z n }) c)
      leaf_found bs b es eb (inl e) =
          let in_tree : RootInput h a ds (0 ∷ b) = record {
            digests = bs;
            decoded = es;
            in_tree = of_leaf b (i, eb);
          } in
          let agree : h.digest a (0 ∷ leaf) ≡ h.digest a (0 ∷ b) =
            sym (some_inj (sym (get_elem?-map (leaf_hash h a) bs i eb) ∙ e)) in
          elim (same_input h a {P = PathInput h a leaf path} {Q = RootInput h a ds} (0 ∷ leaf)
            (0 ∷ b) of_start in_tree agree) [
              | inl same ↦ inl (Decodes-at a ds bs i es ∙ (eb ∙ ap some (sym (ap tail same))))
              | inr c ↦ inr c
            ]

  -- Two lists of digests, of any lengths, with one root are the same list, or an input that
  -- `merkleRoot` hashes for the one has the hash of a different input that it hashes for the other.
  pub merkle_root_binding :
      (ds es : List String) (root : Bytes)
      → merkle_root h a ds ≡ ok root
      → merkle_root h a es ≡ ok root
      → (ds ≡ es) ⊎ Collision h a (RootInput h a ds) (RootInput h a es)
  merkle_root_binding ds es root p q =
      let (bs, eb, _, t) = merkle_root_inv h a ds p in
      let (cs, ec, _, u) = merkle_root_inv h a es q in
      elim (trees_binding h a (length ds) (length es) bs cs root (Root-of h a (length ds) bs t)
        (Root-of h a (length es) cs u)) [
          | inr c ↦ inr (
              widen h a (λ z n. record { digests = bs; decoded = eb; in_tree = n })
                (λ z n. record { digests = cs; decoded = ec; in_tree = n }) c)
          | inl same ↦ inl (Decodes-inj a ds es cs (rw same at eb) ec)
        ]
