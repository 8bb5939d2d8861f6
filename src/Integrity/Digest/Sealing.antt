-- ===== src/Integrity/Digest/Sealing.antt =====
-- Sealing an event leaves the digest input as it was.
use open_audit_model.Common.{String, ◌≡◌, inl, inr, Bool-cases, ◌===◌, ===_refl, refl, ap}
use open_audit_model.Json.{Value, delete, assign, Fields, end, field, member, str, obj}
use open_audit_model.Integrity.Types.{Hash}
use open_audit_model.Integrity.Canonicalize.{Package}
use open_audit_model.Integrity.Digest.{
  without_excluded, digest_excluded, strip_fields, build_digest_input, calculate_digest, seal_event,
  digest, sealed, with_hash, seal_algorithm, seal_canonicalization, seal_integrity, Digested,
}

delete-assign : (k : String) (v : Value) (fs : Fields) → delete k (assign k v fs) ≡ delete k fs
delete-assign k v end = rw ===_refl
delete-assign k v (field j w fs) = elim (Bool-cases (j === k)) [
  | inl same ↦ rw (same, delete, same)
  | inr other ↦ rw (other, delete, other, delete-assign k v fs)
]

strip-assign :
    (k : String) (v : Value) (fs : Fields)
    → k ≡ "hash"
    → without_excluded digest_excluded (assign k v fs) ≡ without_excluded digest_excluded fs
strip-assign k v fs e = rw (← e, delete-assign k v fs)

pub strip_fields-assign :
    (event fs : Fields) (v : Value)
    → member event "integrity" ≡ obj fs
    → strip_fields (assign "integrity" (obj (assign "hash" v fs)) event) ≡ strip_fields event
strip_fields-assign end fs v e = cc
strip_fields-assign (field j w event) fs v e = elim (Bool-cases (j === "integrity")) [
  | inl same ↦
      let e' : w ≡ obj fs = rw same at e in rw (same, same, e', strip-assign "hash" v fs refl)
  | inr other ↦ rw (other, other, strip_fields-assign event fs v (rw other at e))
]

-- What a sealed event is.
pub record IsSealed (h : Hash) (pkg : Package) (event : Value) (out : Value) : Type 0 where
  pub members : Fields
  pub integrity : Fields
  pub canonicalization : String
  pub algorithm : String
  pub hash : String
  pub is_object : event ≡ obj members
  pub has_integrity : member members "integrity" ≡ obj integrity
  pub has_canonicalization : member integrity "canonicalization" ≡ str canonicalization
  pub has_algorithm : member integrity "hashAlgorithm" ≡ str algorithm
  pub digested : calculate_digest h pkg event algorithm ≡ digest hash
  pub result : out ≡ obj (assign "integrity" (obj (assign "hash" (str hash) integrity)) members)

module _ (h : Hash) (pkg : Package) (ev : Fields) (out : Value) where
  from_hash :
      (fs : Fields) (c a : String) (d : Digested)
      → member ev "integrity" ≡ obj fs
      → member fs "canonicalization" ≡ str c
      → member fs "hashAlgorithm" ≡ str a
      → calculate_digest h pkg (obj ev) a ≡ d
      → with_hash h pkg (obj ev) fs d ≡ sealed out
      → IsSealed h pkg (obj ev) out
  from_hash fs c a (digest hash) ei ec ea ed e = record {
    members = ev;
    integrity = fs;
    canonicalization = c;
    algorithm = a;
    hash = hash;
    is_object = refl;
    has_integrity = ei;
    has_canonicalization = ec;
    has_algorithm = ea;
    digested = ed;
    result = cc;
  }
  from_hash fs c a _ ei ec ea ed e = cc

  from_algorithm :
      (fs : Fields) (c : String) (v : Value)
      → member ev "integrity" ≡ obj fs
      → member fs "canonicalization" ≡ str c
      → member fs "hashAlgorithm" ≡ v
      → seal_algorithm h pkg (obj ev) fs v ≡ sealed out
      → IsSealed h pkg (obj ev) out
  from_algorithm fs c (str a) ei ec ea e =
      from_hash fs c a (calculate_digest h pkg (obj ev) a) ei ec ea refl e
  from_algorithm fs c _ ei ec ea e = cc

  from_canonicalization :
      (fs : Fields) (v : Value)
      → member ev "integrity" ≡ obj fs
      → member fs "canonicalization" ≡ v
      → seal_canonicalization h pkg (obj ev) fs v ≡ sealed out
      → IsSealed h pkg (obj ev) out
  from_canonicalization fs (str c) ei ec e =
      from_algorithm fs c (member fs "hashAlgorithm") ei ec refl e
  from_canonicalization fs _ ei ec e = cc

  from_integrity :
      (v : Value)
      → member ev "integrity" ≡ v
      → seal_integrity h pkg (obj ev) v ≡ sealed out
      → IsSealed h pkg (obj ev) out
  from_integrity (obj fs) ei e = from_canonicalization fs (member fs "canonicalization") ei refl e
  from_integrity _ ei e = cc

pub seal_event-IsSealed :
    (h : Hash) (pkg : Package) (event out : Value)
    → seal_event h pkg event ≡ sealed out
    → IsSealed h pkg event out
unfolding seal_event
seal_event-IsSealed h pkg (obj ev) out e =
    from_integrity h pkg ev out (member ev "integrity") refl e
seal_event-IsSealed h pkg _ out e = cc

-- Sealing does not change what is digested: the digest input of a sealed event is that of the event.
pub build_digest_input-seal_event :
    (h : Hash) (pkg : Package) (event out : Value)
    → seal_event h pkg event ≡ sealed out
    → build_digest_input out ≡ build_digest_input event
unfolding build_digest_input
build_digest_input-seal_event h pkg event out e =
    let s = seal_event-IsSealed h pkg event out e in
    rw (s.result, s.is_object)
      (ap obj (strip_fields-assign s.members s.integrity (str s.hash) s.has_integrity))
