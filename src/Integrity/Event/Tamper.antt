-- ===== src/Integrity/Event/Tamper.antt =====
-- The verdict on one event, what a verified digest binds, and the events that sealing makes.
use open_audit_model.Common.{
  String, ◌≡◌, refl, ◌↔◌, Bool, true, false, Option, some, List, [], ◌∷◌, utf8, sym, ap, ◌∙◌, subst,
  ◌⊎◌, inl, inr, some_inj,
}
use open_audit_model.Json.{Value, member, str, Fields}
use open_audit_model.Integrity.Types.{
  Bytes, supported_hash_algorithm, HashAlgorithm, Hash, Collision,
}
use open_audit_model.Integrity.Hex.{to_hex, from_hex}
use open_audit_model.Integrity.Merkle.Inputs.{same_input}
use open_audit_model.Integrity.Hex.RoundTrip.{from_hex-to_hex}
use open_audit_model.Integrity.Canonicalize.{Package, canonicalize, Canonical, canonical, throws}
use open_audit_model.Integrity.Digest.{
  build_digest_input, digest_with, calculate_digest, digest, uncanonical,
}
use open_audit_model.Integrity.Signature.{PublicKey}
use open_audit_model.Integrity.Findings.{Validator, schema_valid, ValidationIssue}
use open_audit_model.Integrity.Event.{read_integrity, after_schema, verify_event_integrity, Engine}
use open_audit_model.Integrity.Event.Verdict.{IsVerified, from_integrity, to_integrity}

-- What the schema test needs, where it is asked for.
abbrev pub Admits : Validator → Bool → Value → Type 0
Admits validator validate_schema event = validate_schema ≡ true → validator event ≡ []

module _ (env : Engine) (event : Value) (label : String) (key : Option PublicKey) where
  from_issues :
      (is : List ValidationIssue)
      → (after_schema env event label key is).verified ≡ true
      → (is ≡ []) × IsVerified env event key
  from_issues [] e =
      (refl, from_integrity env event label key (schema_valid ∷ []) (read_integrity event) refl e)
  from_issues (i ∷ is) e = cc

-- An event is verified exactly when the schema admits it, where the schema is asked for, and it has
-- a supported canonicalization and algorithm, a declared hash that is its digest, and no signature
-- that fails.
pub verify_event_integrity-verified_iff :
    (env : Engine) (event : Value) (label : String) (validator : Validator) (validate_schema : Bool)
    (key : Option PublicKey)
    → ((verify_event_integrity env event label validator validate_schema key).verified ≡ true)
      ↔ (Admits validator validate_schema event × IsVerified env event key)
unfolding verify_event_integrity
verify_event_integrity-verified_iff env event label validator true key = (
  λ e. let (n, v) = from_issues env event label key (validator event) e in (λ _. n, v),
  λ p. rw (p.0 refl) (to_integrity env event label key (schema_valid ∷ []) p.1),
)
verify_event_integrity-verified_iff env event label validator false key = (
  λ e. (λ h. absurd cc, from_integrity env event label key [] (read_integrity event) refl e),
  λ p. to_integrity env event label key [] p.1,
)

-- A digest is that of a canonical text.
pub record IsDigestOf (h : Hash) (pkg : Package) (v : Value) (a : HashAlgorithm) (s : String)
    : Type 0 where
  pub text : String
  pub canonical_text : canonicalize pkg (build_digest_input v) ≡ canonical text
  pub hashed : s ≡ to_hex (h.digest a (utf8 text))

pub calculate_digest_inv :
    (h : Hash) (pkg : Package) (event : Value) (name hash : String) (a : HashAlgorithm)
    → supported_hash_algorithm name ≡ some a
    → calculate_digest h pkg event name ≡ digest hash
    → IsDigestOf h pkg event a hash
unfolding calculate_digest digest_with
calculate_digest_inv h pkg event name hash a s e =
    from (canonicalize pkg (build_digest_input event)) refl
      (rw (calculate_digest, s, digest_with) at e)
  where
    from :
        (c : Canonical)
        → canonicalize pkg (build_digest_input event) ≡ c
        → (elim c [
          | throws x ↦ uncanonical x
          | canonical text ↦ digest (to_hex (h.digest a (utf8 text)))
        ])
          ≡ digest hash
        → IsDigestOf h pkg event a hash
    from (throws x) ec e = cc
    from (canonical text) ec e = record { text = text; canonical_text = ec; hashed = cc }

-- The bytes that are hashed for an event: those of the canonical text of its digest input.
pub record IsHashedFor (pkg : Package) (event : Value) (bytes : Bytes) : Type 0 where
  pub text : String
  pub canonical_text : canonicalize pkg (build_digest_input event) ≡ canonical text
  pub encoded : utf8 text ≡ bytes

-- One digest of two events: the canonical texts have the same bytes, or they collide.
pub digest_binding :
    (h : Hash) (pkg : Package) (first second : Value) (a : HashAlgorithm) (hash : String)
    (l : IsDigestOf h pkg first a hash) (r : IsDigestOf h pkg second a hash)
    → (utf8 l.text ≡ utf8 r.text) ⊎ Collision h a (IsHashedFor pkg first) (IsHashedFor pkg second)
digest_binding h pkg first second a hash l r =
    same_input h a (utf8 l.text) (utf8 r.text)
      (record { text = l.text; canonical_text = l.canonical_text; encoded = refl })
      (record { text = r.text; canonical_text = r.canonical_text; encoded = refl })
      (sym (from_hex-to_hex (h.digest a (utf8 l.text)) (h.digest-IsByte a (utf8 l.text)))
        ∙ (ap from_hex (sym l.hashed ∙ r.hashed)
            ∙ from_hex-to_hex (h.digest a (utf8 r.text)) (h.digest-IsByte a (utf8 r.text))))

-- The declared members of a verified event.
pub declared_of :
    (env : Engine) (event : Value) (key : Option PublicKey) (v : IsVerified env event key)
    → IsDigestOf env.hash env.package_canonicalize event v.algorithm v.hash
declared_of env event key v =
    calculate_digest_inv env.hash env.package_canonicalize event v.name v.hash v.algorithm
      v.supported v.digested

-- What two events have in common when their canonical digest inputs have the same bytes.
pub record SameInput (pkg : Package) (first second : Value) : Type 0 where
  pub left : String
  pub right : String
  pub of_left : canonicalize pkg (build_digest_input first) ≡ canonical left
  pub of_right : canonicalize pkg (build_digest_input second) ≡ canonical right
  pub same_bytes : utf8 left ≡ utf8 right

-- Tampering shows. If two events are verified and declare the same hash and the same hash algorithm,
-- then the canonical texts of their digest inputs have the same UTF-8 bytes, or these two texts have
-- different bytes with one hash under that algorithm.
pub verified-binding :
    (env : Engine) (first second : Value) (l r : String) (validator : Validator) (s t : Bool)
    (key : Option PublicKey) (fs gs : Fields) (name : String) (a : HashAlgorithm)
    → (verify_event_integrity env first l validator s key).verified ≡ true
    → (verify_event_integrity env second r validator t key).verified ≡ true
    → read_integrity first ≡ some fs
    → read_integrity second ≡ some gs
    → member fs "hash" ≡ member gs "hash"
    → member fs "hashAlgorithm" ≡ str name
    → member gs "hashAlgorithm" ≡ str name
    → supported_hash_algorithm name ≡ some a
    → SameInput env.package_canonicalize first second
      ⊎ Collision env.hash a
          (IsHashedFor env.package_canonicalize first)
          (IsHashedFor env.package_canonicalize second)
verified-binding env first second l r validator s t key fs gs name a v w ef eg eh en em ea =
    let p = ((verify_event_integrity-verified_iff env first l validator s key).0 v).1 in
    let q = ((verify_event_integrity-verified_iff env second r validator t key).0 w).1 in
    let i = ofs first key p fs name a ef en ea in
    let j = ofs second key q gs name a eg em ea in
    let same : str i.0 ≡ str j.0 = sym i.1 ∙ (eh ∙ j.1) in
    let k =
      subst (IsDigestOf env.hash env.package_canonicalize second a) (sym (str_inj same)) j.2 in
    elim (digest_binding env.hash env.package_canonicalize first second a i.0 i.2 k) [
      | inr c ↦ inr c
      | inl e ↦ inl (record {
        left = i.2.text;
        right = k.text;
        of_left = i.2.canonical_text;
        of_right = k.canonical_text;
        same_bytes = e;
      })
    ]
  where
    str_inj : {x y : String} → str x ≡ str y → x ≡ y
    str_inj e = cc

    ofs :
        (event : Value) (key : Option PublicKey) (p : IsVerified env event key) (fs : Fields)
        (name : String) (a : HashAlgorithm)
        → read_integrity event ≡ some fs
        → member fs "hashAlgorithm" ≡ str name
        → supported_hash_algorithm name ≡ some a
        → (hash : String) × (member fs "hash" ≡ str hash)
          × IsDigestOf env.hash env.package_canonicalize event a hash
    ofs event key p fs name a ef en ea =
        let same : p.integrity ≡ fs = some_inj (sym p.has_integrity ∙ ef) in
        let n : p.name ≡ name =
          str_inj (sym p.has_algorithm ∙ (ap (λ g. member g "hashAlgorithm") same ∙ en)) in
        let b : p.algorithm ≡ a =
          some_inj (sym p.supported ∙ (ap supported_hash_algorithm n ∙ ea)) in
        (
          p.hash,
          sym (ap (λ g. member g "hash") same) ∙ p.has_hash,
          subst (λ b. IsDigestOf env.hash env.package_canonicalize event b p.hash) b
              (declared_of env event key p),
        )
