-- ===== src/Integrity/Checkpoint/Agreement.antt =====
-- When an archive agrees with a checkpoint.
use open_audit_model.Common.{
  ℕ, String, ◌≡◌, refl, sym, ap, ◌∙◌, subst, ◌↔◌, inl, inr, Bool, true, false, ◌&&◌, Option, none,
  some, List, [], ◌∷◌, ltb, ◌==◌, if◌then◌else◌, ==_iff, Bool-cases, true-of-&&, any, true-ne-false,
}
use open_audit_model.Integrity.Hex.{}
use open_audit_model.Integrity.Hex.RoundTrip.{}
use open_audit_model.Integrity.Signature.{}
use open_audit_model.Integrity.Signature.Document.{}
use open_audit_model.Integrity.Findings.{overall, tail_truncated, checkpoint_head_missing, Finding}
use open_audit_model.Integrity.Event.{}
use open_audit_model.Integrity.Chain.{is_empty, ChainResult}
use open_audit_model.Integrity.Chain.Verify.{}
use open_audit_model.Integrity.Chain.Intake.{}
use open_audit_model.Integrity.Chain.Intact.{is_empty_append}
use open_audit_model.Integrity.Checkpoint.{CheckpointClaim, IndexedEvent}
use open_audit_model.Integrity.Checkpoint.Compare.{
  same_sealing, matches_head, at_sequence, up_to, absent_findings, count_agrees, head_findings,
  claim_findings, compare_claim, claim_agrees, claim_disagrees,
}

-- What the events of a chain must be for a claim about its head.
pub record Reaches (claim : CheckpointClaim) (events : List IndexedEvent)
    (algorithm canonicalization : String) : Type 0 where
  pub head : IndexedEvent
  pub others : List IndexedEvent
  pub at_head : at_sequence claim.head_sequence events ≡ head ∷ others
  pub sealed_alike : same_sealing head algorithm canonicalization ≡ true
  pub recorded_hash :
      any (matches_head claim.head_hash) (at_sequence claim.head_sequence events) ≡ true
  pub recorded_count : count_agrees claim.event_count (up_to claim.head_sequence events) ≡ true

-- A claim that a chain agrees with.
pub record Agrees (claim : CheckpointClaim) (events : List IndexedEvent) (unverified : ℕ)
    (chain : ChainResult) (algorithm canonicalization : String) : Type 0 where
  pub intact : chain.intact ≡ true
  pub all_verified : unverified ≡ 0
  pub reaches : Reaches claim events algorithm canonicalization

empty_if_iff : (b : Bool) (f : Finding) → (is_empty (if b then [] else f ∷ []) ≡ true) ↔ (b ≡ true)
empty_if_iff true f = (λ e. refl, λ e. refl)
empty_if_iff false f = (λ e. cc, λ e. cc)

absent_not_empty : (n : ℕ) (last : Option ℕ) → is_empty (absent_findings 0 n last) ≡ false
absent_not_empty n none = refl
absent_not_empty n (some last) = go (ltb last n)
  where
    go :
        (b : Bool)
        → is_empty (if b then overall tail_truncated ∷ [] else overall checkpoint_head_missing ∷ [])
          ≡ false
    go true = refl
    go false = refl

module _ (claim : CheckpointClaim) (events : List IndexedEvent) (last : Option ℕ)
    (algorithm canonicalization : String) where
  head_iff :
      (at_head : List IndexedEvent)
      → at_sequence claim.head_sequence events ≡ at_head
      → (is_empty (head_findings claim events 0 at_head last algorithm canonicalization) ≡ true)
        ↔ Reaches claim events algorithm canonicalization
  head_iff [] q = (
    λ e. absurd (true-ne-false (sym e ∙ absent_not_empty claim.head_sequence last)),
    λ r. cc (sym q ∙ r.at_head),
  )
  head_iff (head ∷ others) q = elim (Bool-cases (same_sealing head algorithm canonicalization)) [
    | inr n ↦ (
      λ e. cc (rw n at e),
      λ r. absurd (
          true-ne-false
            (sym r.sealed_alike ∙ (ap (λ es. sealed_first es) (sym r.at_head ∙ q) ∙ n))),
    )
    | inl s ↦ (
      λ e.
          let (a, b) = (is_empty_append _ _).0 (rw s at e) in
          record {
            head = head;
            others = others;
            at_head = q;
            sealed_alike = s;
            recorded_hash = (empty_if_iff _ _).0 a;
            recorded_count = (empty_if_iff _ _).0 b;
          },
      λ r. rw s (
          (is_empty_append _ _).1
            ((empty_if_iff _ _).1 r.recorded_hash, (empty_if_iff _ _).1 r.recorded_count)),
    )
  ]
    where
      sealed_first : List IndexedEvent → Bool
      sealed_first [] = false
      sealed_first (e ∷ es) = same_sealing e algorithm canonicalization

-- A chain agrees with a claim exactly when the chain is intact, none of its members is unverified, the
-- first event at the recorded sequence is sealed with the checkpoint's algorithm and
-- canonicalization, an event at that sequence has the recorded hash, and as many events stand up to
-- it as the checkpoint records, where it records that.
pub compare_claim-Agrees_iff :
    (claim : CheckpointClaim) (events : List IndexedEvent) (unverified : ℕ) (chain : ChainResult)
    (algorithm canonicalization : String)
    → ((compare_claim claim events unverified chain algorithm canonicalization).status
        ≡ claim_agrees)
      ↔ Agrees claim events unverified chain algorithm canonicalization
unfolding compare_claim
compare_claim-Agrees_iff claim events unverified chain algorithm canonicalization = (
  λ e.
      let (i, f) = true-of-&& _ _ (status_true _ e) in
      let (f, u) = true-of-&& _ _ f in
      let zero_members = (==_iff unverified 0).0 u in
      record {
        intact = i;
        all_verified = zero_members;
        reaches = reached (
            subst
              (λ n.
                is_empty
                  (claim_findings claim events n chain.last_sequence algorithm canonicalization)
                ≡ true)
              zero_members f);
      },
  λ a.
      let f : is_empty
            (claim_findings claim events 0 chain.last_sequence algorithm canonicalization)
          ≡ true =
        (is_empty_append _ _).1 (
          (head_iff claim events chain.last_sequence algorithm canonicalization _ refl).1 a.reaches,
          refl,
        ) in
      subst
        (λ n.
          (if chain.intact
              && (is_empty
                    (claim_findings claim events n chain.last_sequence algorithm canonicalization)
                  && n == 0)
            then claim_agrees
            else claim_disagrees)
          ≡ claim_agrees)
        (sym a.all_verified) (rw (a.intact, f) refl),
)
  where
    status_true :
        (b : Bool) → (if b then claim_agrees else claim_disagrees) ≡ claim_agrees → b ≡ true
    status_true true e = refl
    status_true false e = cc

    reached :
        is_empty (claim_findings claim events 0 chain.last_sequence algorithm canonicalization)
          ≡ true
        → Reaches claim events algorithm canonicalization
    reached f =
        (head_iff claim events chain.last_sequence algorithm canonicalization _ refl).0
          ((is_empty_append _ _).0 f).0
