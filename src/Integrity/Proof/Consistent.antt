-- ===== src/Integrity/Proof/Consistent.antt =====
-- What the findings about a proof document decide.
use open_audit_model.Common.{
  ℕ, ◌<◌, ◌≡◌, refl, sym, ap, ◌∙◌, subst, inl, inr, Bool, true, false, not, Option, none, some,
  List, [], ◌∷◌, ◌++◌, map, arith, leb, Bool-cases, true-of-&&, is_none, ◌>>=◌, any, all,
  true-ne-false,
}
use open_audit_model.Integrity.Types.{Bytes, HashAlgorithm, Hash}
use open_audit_model.Integrity.Hex.{to_hex, digests_equal}
use open_audit_model.Integrity.Hex.RoundTrip.{digests_equal_iff}
use open_audit_model.Integrity.Merkle.{
  decode_digest, expected_sides, leaf_hash, climb_step, climb, root_from_path, Side, left, right,
  PathStep,
}
use open_audit_model.Integrity.Merkle.Path.{decode_digest-to_hex, digest-IsOutput}
use open_audit_model.Integrity.Merkle.Binding.{climb-IsOutput}
use open_audit_model.Integrity.Merkle.Inclusion.{}
use open_audit_model.Integrity.Signature.{}
use open_audit_model.Integrity.Signature.Document.{}
use open_audit_model.Integrity.Digest.{}
use open_audit_model.Integrity.Findings.{
  FindingKind, proof_digest_length_mismatch, proof_path_inconsistent, proof_root_mismatch, Finding,
}
use open_audit_model.Integrity.Event.{}
use open_audit_model.Integrity.Chain.{}
use open_audit_model.Integrity.Proof.{
  about_proof, lengths_valid, same_sides, shape_valid, position_findings, fails_proof, recompute,
  root_findings, document_findings, ProofDocument,
}

pub any-append_false :
    (p : Finding → Bool) (xs ys : List Finding)
    → any p (xs ++ ys) ≡ false
    → (any p xs ≡ false) × (any p ys ≡ false)
any-append_false p [] ys e = (refl, e)
any-append_false p (x ∷ xs) ys e = elim (Bool-cases (p x)) [
  | inl t ↦ absurd (true-ne-false (rw t at e))
  | inr f ↦ let (a, b) = any-append_false p xs ys (rw f at e) in (rw f a, b)
]

abbrev pub fails : Finding → Bool
fails f = fails_proof f.kind

about_proof_iff :
    (b : Bool) (kind : FindingKind)
    → fails_proof kind ≡ true
    → any fails (about_proof b kind) ≡ false
    → b ≡ true
about_proof_iff true kind k e = refl
about_proof_iff false kind k e = absurd (true-ne-false (rw k at e))

same_sides→≡ : (ss ts : List Side) → same_sides ss ts ≡ true → ss ≡ ts
same_sides→≡ [] [] e = refl
same_sides→≡ [] (t ∷ ts) e = cc
same_sides→≡ (s ∷ ss) [] e = cc
same_sides→≡ (left ∷ ss) (left ∷ ts) e = ap (◌∷◌ left) (same_sides→≡ ss ts e)
same_sides→≡ (left ∷ ss) (right ∷ ts) e = cc
same_sides→≡ (right ∷ ss) (left ∷ ts) e = cc
same_sides→≡ (right ∷ ss) (right ∷ ts) e = ap (◌∷◌ right) (same_sides→≡ ss ts e)

-- What the document's own findings decide.
pub record IsConsistent (h : Hash) (a : HashAlgorithm) (d : ProofDocument) : Type 0 where
  pub leaf : Bytes
  pub root : Bytes
  pub leaf_digest : decode_digest a d.leaf_hash ≡ some leaf
  pub root_digest : decode_digest a d.root_hash ≡ some root
  pub inside : d.leaf_index < d.leaf_count
  pub shape :
      expected_sides d.leaf_count d.leaf_index d.leaf_count ≡ some (map (λ step. step.side) d.path)
  pub climbs : root_from_path h a leaf d.path ≡ some root

some_of : {A : Type 0} (o : Option A) → not (is_none o) ≡ true → (x : A) × (o ≡ some x)
some_of none e = cc
some_of (some x) e = (x, refl)

module _ (h : Hash) (a : HashAlgorithm) (d : ProofDocument) where
  in_shape :
      any fails (position_findings d) ≡ false
      → (d.leaf_index < d.leaf_count)
        × (expected_sides d.leaf_count d.leaf_index d.leaf_count
            ≡ some (map (λ step. step.side) d.path))
  in_shape e = elim (Bool-cases (leb d.leaf_count d.leaf_index)) [
    | inl out ↦ absurd (true-ne-false (rw out at e))
    | inr below ↦ (
      under d.leaf_count d.leaf_index below,
      shape_of (expected_sides d.leaf_count d.leaf_index d.leaf_count) refl
          (about_proof_iff (shape_valid d) proof_path_inconsistent refl (rw below at e)),
    )
  ]
    where
      under : (n i : ℕ) → leb n i ≡ false → i < n
      under n i e = ground arith

      shape_of :
          (o : Option (List Side))
          → expected_sides d.leaf_count d.leaf_index d.leaf_count ≡ o
          → (elim o as (λ x. Bool) [
            | none ↦ false
            | some sides ↦ same_sides sides (map (λ step. step.side) d.path)
          ])
            ≡ true
          → expected_sides d.leaf_count d.leaf_index d.leaf_count
            ≡ some (map (λ step. step.side) d.path)
      shape_of none q e = cc
      shape_of (some sides) q e = q ∙ ap some (same_sides→≡ _ _ e)

  climbs_to :
      (leaf root : Bytes)
      → decode_digest a d.root_hash ≡ some root
      → (o : Option Bytes) → root_from_path h a leaf d.path ≡ o
      → not (is_none o) ≡ true
      → any fails (elim o as (λ x. List Finding) [
        | none ↦ []
        | some r ↦ about_proof (digests_equal (to_hex r) d.root_hash) proof_root_mismatch
      ])
        ≡ false
      → root_from_path h a leaf d.path ≡ some root
  unfolding root_from_path
  climbs_to leaf root er none q s e = cc
  climbs_to leaf root er (some r) q s e =
      let eq = about_proof_iff _ proof_root_mismatch refl e in
      let same = ((digests_equal_iff (to_hex r) d.root_hash).0 eq).1 in
      let out = climb-IsOutput h a (leaf_hash h a leaf) d.path (digest-IsOutput h a _) q in
      q ∙ (sym (decode_digest-to_hex a r out) ∙ (ap (decode_digest a) same ∙ er))

  climb_total :
      (x : Bytes) (path : List PathStep)
      → all (λ step. not (is_none (decode_digest a step.hash))) path ≡ true
      → not (is_none (climb h a x path)) ≡ true
  unfolding climb
  climb_total x [] e = refl
  climb_total x (step ∷ path) e =
      let (s, rest) = true-of-&& _ _ e in
      let (b, good) = some_of (decode_digest a step.hash) s in
      let q : climb h a x (step ∷ path) ≡ climb h a (climb_step h a step.side b x) path =
        rw (climb, good) refl in
      subst (λ o. not (is_none o) ≡ true) (sym q)
        (climb_total (climb_step h a step.side b x) path rest)

  pub consistent : any fails (document_findings h a d) ≡ false → IsConsistent h a d
  unfolding root_from_path
  consistent e =
      let (e1, e2) =
        any-append_false fails (about_proof (lengths_valid a d) proof_digest_length_mismatch)
          (position_findings d ++ root_findings h a d) e in
      let (e3, e4) = any-append_false fails (position_findings d) (root_findings h a d) e2 in
      let lengths = about_proof_iff (lengths_valid a d) proof_digest_length_mismatch refl e1 in
      let (l, rest) = true-of-&& _ _ lengths in
      let (r, steps) = true-of-&& _ _ rest in
      let (leaf, el) = some_of (decode_digest a d.leaf_hash) l in
      let (root, er) = some_of (decode_digest a d.root_hash) r in
      let (lt, shape) = in_shape e3 in
      record {
        leaf = leaf;
        root = root;
        leaf_digest = el;
        root_digest = er;
        inside = lt;
        shape = shape;
        climbs = climbs_to leaf root er (root_from_path h a leaf d.path) refl (total leaf steps) (
            subst
              (λ o.
                any fails (elim o as (λ x. List Finding) [
                  | none ↦ []
                  | some r ↦ about_proof (digests_equal (to_hex r) d.root_hash) proof_root_mismatch
                ])
                ≡ false)
              (recomputed leaf lengths el) e4);
      }
    where
      recomputed :
          (leaf : Bytes)
          → lengths_valid a d ≡ true
          → decode_digest a d.leaf_hash ≡ some leaf
          → recompute h a d ≡ root_from_path h a leaf d.path
      recomputed leaf lengths el =
          ap
            (λ b. elim b as (λ x. Option Bytes) [
              | true ↦ decode_digest a d.leaf_hash >>= λ leaf. root_from_path h a leaf d.path
              | false ↦ none
            ])
            lengths
          ∙ ap (λ o. o >>= λ leaf. root_from_path h a leaf d.path) el

      total :
          (leaf : Bytes)
          → all (λ step. not (is_none (decode_digest a step.hash))) d.path ≡ true
          → not (is_none (root_from_path h a leaf d.path)) ≡ true
      total leaf steps = climb_total (leaf_hash h a leaf) d.path steps
