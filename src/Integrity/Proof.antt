-- ===== src/Integrity/Proof.antt =====
-- conformance/src/integrity/verify-proof.ts: an event, a proof document, and the tree's root.
pub mod Included
pub mod Consistent
use open_audit_model.Common.{
  ℕ, String, Bool, true, false, not, ◌&&◌, ◌||◌, Option, none, some, List, [], ◌∷◌, ◌++◌, map, leb,
  if◌then◌else◌, is_none, value_or, ◌>>=◌, length, any, all, ◌===◌, has,
}
use open_audit_model.Json.{Value, Number, nat, num, str, obj, arr, items, as_string}
use open_audit_model.Integrity.Types.{supported_hash_algorithm, Bytes, HashAlgorithm, Hash}
use open_audit_model.Integrity.Hex.{to_hex, digests_equal}
use open_audit_model.Integrity.Digest.{property, digest}
use open_audit_model.Integrity.Merkle.{
  decode_digest, expected_sides, root_from_path, Side, left, right, PathStep,
}
use open_audit_model.Integrity.Signature.{PublicKey}
use open_audit_model.Integrity.Signature.Document.{
  check_declared_document_signature, DocumentCheck, undeclared_signature, throws_uncanonical,
  declared_result,
}
use open_audit_model.Integrity.Findings.{
  at_event, overall, Validator, FindingKind, integrity_missing, hash_missing,
  hash_algorithm_missing, canonicalization_missing, unsupported_canonicalization,
  unsupported_algorithm, proof_schema_invalid, proof_algorithm_unsupported,
  proof_digest_length_mismatch, proof_position_invalid, proof_path_inconsistent,
  proof_root_mismatch, proof_leaf_unavailable, proof_leaf_mismatch, Finding, ValidationIssue,
  EventResult,
}
use open_audit_model.Integrity.Event.{verify_event_integrity, Engine}
use open_audit_model.Integrity.Chain.{as_sequence, is_empty}

-- What the code reads of a proof that its schema admits; the anchor is only repeated.
pub record ProofDocument : Type 0 where
  pub hash_algorithm : String
  pub leaf_hash : String
  pub leaf_index : ℕ
  pub root_hash : String
  pub leaf_count : ℕ
  pub path : List PathStep

abbrev pub read_side : String → Option Side
read_side name =
    if name === "left" then some left else if name === "right" then some right else none

abbrev pub read_step : Value → Option PathStep
read_step step = as_string (property step "side") >>= λ name. read_side name >>= λ side.
    as_string (property step "hash") >>= λ hash. some (record { side = side; hash = hash })

abbrev pub read_steps : List Value → Option (List PathStep)
read_steps [] = some []
read_steps (step ∷ steps) =
    read_step step >>= λ first. read_steps steps >>= λ rest. some (first ∷ rest)

abbrev pub read_path : Value → Option (List PathStep)
read_path (arr xs) = read_steps (items xs)
read_path v = none

-- The casts of the source; `none` where one does not hold, which the schema of proofs excludes.
abbrev pub read_proof : Value → Option ProofDocument
read_proof proof = as_string (property proof "hashAlgorithm") >>= λ algorithm.
    as_string (property (property proof "leaf") "hash") >>= λ leaf.
    as_sequence (property (property proof "leaf") "index") >>= λ index.
    as_string (property (property proof "root") "hash") >>= λ root.
    as_sequence (property (property proof "root") "leafCount") >>= λ count.
    read_path (property proof "path") >>= λ path. some (record {
      hash_algorithm = algorithm;
      leaf_hash = leaf;
      leaf_index = index;
      root_hash = root;
      leaf_count = count;
      path = path;
    })

-- `ProofOutcome`
pub data ProofOutcome : Type 0 where
  proof_verified proof_failed no_leaf invalid_proof : ProofOutcome

-- `ProofReport`, without what it repeats of the document
pub record ProofReport : Type 0 where
  pub outcome : ProofOutcome
  pub calculated_root : Option String
  pub event : Option EventResult
  pub findings : List Finding

-- `LEAF_UNAVAILABLE`
abbrev pub leaf_unavailable : FindingKind → Bool
leaf_unavailable integrity_missing = true
leaf_unavailable hash_missing = true
leaf_unavailable hash_algorithm_missing = true
leaf_unavailable canonicalization_missing = true
leaf_unavailable unsupported_canonicalization = true
leaf_unavailable unsupported_algorithm = true
leaf_unavailable kind = false

abbrev pub about_proof : Bool → FindingKind → List Finding
about_proof true kind = []
about_proof false kind = at_event kind "proof" ∷ []

-- Whether every digest of the document has the algorithm's length.
abbrev pub lengths_valid : HashAlgorithm → ProofDocument → Bool
lengths_valid a d =
    not (is_none (decode_digest a d.leaf_hash))
    && (not (is_none (decode_digest a d.root_hash))
        && all (λ step. not (is_none (decode_digest a step.hash))) d.path)

abbrev pub same_side : Side → Side → Bool
same_side left left = true
same_side right right = true
same_side s t = false

-- Two lists of sides of one length, with one side at each place.
abbrev pub same_sides : List Side → List Side → Bool
same_sides [] [] = true
same_sides (s ∷ ss) (t ∷ ts) = same_side s t && same_sides ss ts
same_sides ss ts = false

-- The path's shape. The fuel of `expected_sides` is the number of leaves, which is enough for an index
-- in the tree.
abbrev pub shape_valid : ProofDocument → Bool
shape_valid d = elim (expected_sides d.leaf_count d.leaf_index d.leaf_count) [
  | none ↦ false
  | some sides ↦ same_sides sides (map (λ step. step.side) d.path)
]

abbrev pub position_findings : ProofDocument → List Finding
position_findings d =
    if leb d.leaf_count d.leaf_index
    then about_proof false proof_position_invalid
    else about_proof (shape_valid d) proof_path_inconsistent

abbrev pub signature_kinds : DocumentCheck → Option (List Finding)
signature_kinds undeclared_signature = some []
signature_kinds throws_uncanonical = none
signature_kinds (declared_result s) =
    some (elim s.finding [ none ↦ [] | some kind ↦ at_event kind "proof" ∷ [] ])

-- The findings about the event.
abbrev pub event_unavailable : EventResult → Bool
event_unavailable result = all (λ f. leaf_unavailable f.kind) result.findings

abbrev pub leaf_findings : ProofDocument → String → EventResult → List Finding
leaf_findings d label result =
    if result.verified
    then (if digests_equal (value_or result.declared_hash "") d.leaf_hash
        then []
        else overall proof_leaf_mismatch ∷ [])
    else if event_unavailable result
    then at_event proof_leaf_unavailable label ∷ []
    else []

abbrev pub fails_proof : FindingKind → Bool
fails_proof proof_leaf_unavailable = false
fails_proof kind = true

-- `outcome`
abbrev pub proof_outcome : List Finding → EventResult → Bool → ProofOutcome
proof_outcome findings result position_valid =
    let unavailable = not result.verified && event_unavailable result in
    if any (λ f. fails_proof f.kind) findings
      || ((not result.verified && not unavailable) || not position_valid)
    then proof_failed
    else if unavailable
    then no_leaf
    else proof_verified

module _ (h : Hash) (a : HashAlgorithm) where
  -- `calculatedRoot`
  abbrev pub recompute : ProofDocument → Option Bytes
  recompute d = elim (lengths_valid a d) [
    | true ↦ decode_digest a d.leaf_hash >>= λ leaf. root_from_path h a leaf d.path
    | false ↦ none
  ]

  abbrev pub root_findings : ProofDocument → List Finding
  root_findings d = elim (recompute d) [
    | none ↦ []
    | some root ↦ about_proof (digests_equal (to_hex root) d.root_hash) proof_root_mismatch
  ]

  -- The findings about the document, after those about its signature.
  abbrev pub document_findings : ProofDocument → List Finding
  document_findings d =
      about_proof (lengths_valid a d) proof_digest_length_mismatch
      ++ (position_findings d ++ root_findings d)

module _ (env : Engine) (events proof : Validator) (key : Option PublicKey) (event : Value)
    (label : String) where
  abbrev pub event_result : EventResult
  event_result = verify_event_integrity env event label events true key

  abbrev pub judge : ProofDocument → List Finding → Option HashAlgorithm → ProofReport
  judge d signature none = record {
    outcome = proof_failed;
    calculated_root = none;
    event = none;
    findings = signature ++ at_event proof_algorithm_unsupported "proof" ∷ [];
  }
  judge d signature (some a) =
      let findings =
        signature ++ (document_findings env.hash a d ++ leaf_findings d label event_result) in
      record {
        outcome = proof_outcome findings event_result (is_empty (position_findings d));
        calculated_root = recompute env.hash a d >>= λ root. some (to_hex root);
        event = some event_result;
        findings = findings;
      }

  abbrev pub after_proof_schema : Value → List ValidationIssue → Option ProofReport
  after_proof_schema document (issue ∷ issues) = some (record {
    outcome = invalid_proof;
    calculated_root = none;
    event = none;
    findings = at_event proof_schema_invalid "proof" ∷ [];
  })
  after_proof_schema document [] = read_proof document >>= λ d.
      signature_kinds (
        check_declared_document_signature env.verify env.package_canonicalize
          (property document "root") key)
      >>= λ signature. some (judge d signature (supported_hash_algorithm d.hash_algorithm))

  -- `verifyProof`; `none` where it throws, or where a cast of the source does not hold
  unfoldable pub verify_proof : Value → Option ProofReport
  verify_proof document = after_proof_schema document (proof document)
