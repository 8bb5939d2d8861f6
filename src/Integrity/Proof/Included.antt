-- ===== src/Integrity/Proof/Included.antt =====
-- What a verified inclusion proof shows.
use open_audit_model.Common.{
  ◌<◌, ◌≡◌, refl, sym, ap, ◌∙◌, inl, inr, Bool, true, false, not, Option, none, some, List, [], ◌∷◌,
  ◌++◌, map, Bool-cases, any, true-ne-false, String, subst, ◌⊎◌, ◌&&◌, ◌||◌, if◌then◌else◌,
  value_or, ◌>>=◌, length, get_elem?, some_inj,
}
use open_audit_model.Json.{own, Value}
use open_audit_model.Integrity.Types.{Bytes, HashAlgorithm, supported_hash_algorithm, Collision}
use open_audit_model.Integrity.Hex.{digests_equal}
use open_audit_model.Integrity.Hex.RoundTrip.{digests_equal_iff}
use open_audit_model.Integrity.Merkle.{decode_digest, expected_sides, merkle_root, ok}
use open_audit_model.Integrity.Merkle.Inputs.{PathInput, RootInput, widen}
use open_audit_model.Integrity.Merkle.Inclusion.{inclusion_binding}
use open_audit_model.Integrity.Signature.{PublicKey}
use open_audit_model.Integrity.Signature.Document.{check_declared_document_signature}
use open_audit_model.Integrity.Digest.{property}
use open_audit_model.Integrity.Findings.{Finding, Validator, ValidationIssue, EventResult}
use open_audit_model.Integrity.Event.{Engine}
use open_audit_model.Integrity.Proof.{
  ProofDocument, document_findings, read_proof, signature_kinds, event_unavailable, leaf_findings,
  proof_outcome, event_result, judge, after_proof_schema, verify_proof, proof_verified,
  proof_failed, no_leaf, invalid_proof, ProofReport,
}
use open_audit_model.Integrity.Proof.Consistent.{any-append_false, fails, consistent}

module _ (env : Engine) (events proof : Validator) (key : Option PublicKey) (event : Value)
    (label : String) where
  -- What `rootFromPath` hashes for a proof.
  pub record ProofInput (d : ProofDocument) (a : HashAlgorithm) (z : Bytes) : Type 0 where
    pub leaf : Bytes
    pub leaf_digest : decode_digest a d.leaf_hash ≡ some leaf
    pub on_path : PathInput env.hash a leaf d.path z

  -- The event is verified, and the list that a proof describes has its declared hash at the proof's
  -- index, or there is a collision of inputs that are hashed along its path and for the list.
  pub record IsIncluded (d : ProofDocument) (a : HashAlgorithm) (ds : List String) : Type 0 where
    pub hash : String
    pub event_verified : (event_result env events proof key event label).verified ≡ true
    pub declares : value_or (event_result env events proof key event label).declared_hash "" ≡ hash
    pub at_index :
        ((get_elem? ds d.leaf_index >>= decode_digest a) ≡ decode_digest a hash)
        ⊎ Collision env.hash a (ProofInput d a) (RootInput env.hash a ds)

  judged_verified :
      (fs : List Finding) (result : EventResult) (p : Bool)
      → proof_outcome fs result p ≡ proof_verified
      → (any fails fs ≡ false) × (result.verified ≡ true)
  judged_verified fs result p e = go (any fails fs) result.verified (event_unavailable result) p e
    where
      go :
          (f v u p : Bool)
          → (if f || ((not v && not (not v && u)) || not p)
              then proof_failed
              else if not v && u
              then no_leaf
              else proof_verified)
            ≡ proof_verified
          → (f ≡ false) × (v ≡ true)
      go true v u p e = cc
      go false true u true e = (refl, refl)
      go false true u false e = cc
      go false false true true e = cc
      go false false true false e = cc
      go false false false p e = cc

  matches_leaf :
      (d : ProofDocument) (result : EventResult)
      → result.verified ≡ true
      → any fails (leaf_findings d label result) ≡ false
      → value_or result.declared_hash "" ≡ d.leaf_hash
  matches_leaf d result v e =
      elim (Bool-cases (digests_equal (value_or result.declared_hash "") d.leaf_hash)) [
        | inl s ↦ ((digests_equal_iff (value_or result.declared_hash "") d.leaf_hash).0 s).1
        | inr n ↦ absurd (true-ne-false (rw (v, n) at e))
      ]

  included :
      (d : ProofDocument) (signature : List Finding) (a : HashAlgorithm) (ds : List String)
      (root : Bytes)
      → (judge env events proof key event label d signature (some a)).outcome ≡ proof_verified
      → length ds ≡ d.leaf_count
      → merkle_root env.hash a ds ≡ ok root
      → decode_digest a d.root_hash ≡ some root
      → IsIncluded d a ds
  included d signature a ds root e n tree er =
      let result = event_result env events proof key event label in
      let (f, v) =
        judged_verified
          (signature ++ (document_findings env.hash a d ++ leaf_findings d label result)) result _
          e in
      let rest =
        (any-append_false fails signature
          (document_findings env.hash a d ++ leaf_findings d label result) f).1 in
      let (own, about_leaf) =
        any-append_false fails (document_findings env.hash a d) (leaf_findings d label result)
          rest in
      let c = consistent env.hash a d own in
      let same_root : c.root ≡ root = some_inj (sym c.root_digest ∙ er) in
      record {
        hash = d.leaf_hash;
        event_verified = v;
        declares = matches_leaf d result v about_leaf;
        at_index =
            elim (inclusion_binding env.hash a ds d.leaf_index c.leaf root d.path tree
              (subst (λ m. d.leaf_index < m) (sym n) c.inside)
              (subst (λ m. expected_sides m d.leaf_index m ≡ some (map (λ s. s.side) d.path))
                (sym n) c.shape)
              (c.climbs ∙ ap some same_root)) [
                | inl at ↦ inl (at ∙ sym c.leaf_digest)
                | inr x ↦ inr (
                    widen env.hash a
                      (λ z p. record { leaf = c.leaf; leaf_digest = c.leaf_digest; on_path = p })
                      (λ z p. p) x)
              ];
      }

  -- What an inclusion proof shows. If a proof is verified, its algorithm is supported, and its root is
  -- the Merkle root of a list of digests as long as the proof says, then the proof's schema admits it,
  -- the event is verified, and its declared hash is the digest at the proof's index, or an input that
  -- is hashed along the proof's path has the hash of a different input that `merkleRoot` hashes for the
  -- list.
  pub verify_proof-IsIncluded :
      (document : Value) (report : ProofReport) (d : ProofDocument) (a : HashAlgorithm)
      (ds : List String) (root : Bytes)
      → verify_proof env events proof key event label document ≡ some report
      → report.outcome ≡ proof_verified
      → read_proof document ≡ some d
      → supported_hash_algorithm d.hash_algorithm ≡ some a
      → length ds ≡ d.leaf_count
      → merkle_root env.hash a ds ≡ ok root
      → decode_digest a d.root_hash ≡ some root
      → (proof document ≡ []) × IsIncluded d a ds
  unfolding verify_proof
  verify_proof-IsIncluded document report d a ds root e q ed ea n tree er = after (proof document) e
    where
      signed :
          (s : Option (List Finding))
          → (s >>= λ signature. some (judge env events proof key event label d signature (some a)))
            ≡ some report
          → IsIncluded d a ds
      signed none e = cc
      signed (some s) e = included d s a ds root (ap (λ r. r.outcome) (some_inj e) ∙ q) n tree er

      after :
          (issues : List ValidationIssue)
          → after_proof_schema env events proof key event label document issues ≡ some report
          → (issues ≡ []) × IsIncluded d a ds
      after [] e = (
        refl,
        signed
            (signature_kinds (
              check_declared_document_signature env.verify env.package_canonicalize
                (property document "root") key))
            (rw (ed, ea) at e),
      )
      after (i ∷ is) e = absurd (refuses (ap (λ r. r.outcome) (some_inj e) ∙ q))
        where
          refuses : invalid_proof ≡ proof_verified → ⊥
          refuses p = cc
