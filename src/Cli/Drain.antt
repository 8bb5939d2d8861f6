-- ===== src/Cli/Drain.antt =====
-- What a run that exits with a verdict has read.
use open_audit_model.Common.{
  ℕ, ◌+◌, ◌≤◌, ◌<◌, String, ◌≡◌, refl, ap, inl, inr, Bool, true, false, some, List, [], ◌∷◌, map,
  arith, ltb, ltb-false→le, Bool-cases, Option-cases, length, length-append, subst, ◌&&◌, ◌==◌, sym,
  ◌≢◌,
}
use open_audit_model.Integrity.Findings.{Validator}
use open_audit_model.Sources.Stream.{
  collect_items, stream_event_documents, load_event_documents, LoadedItem, loaded, EventDocument,
  DocumentLoadResult,
}
use open_audit_model.Cli.{take_item, drain, if_any, exit_of, Machine, Streamed, exit_ok, exit_error}
use open_audit_model.Cli.Commands.{stream_input, load_input, exit_of_loaded}

-- The documents, all taken in by the closure of the command.
abbrev pub keep_all : {S : Type 0} → (S → EventDocument → S) → S → List EventDocument → S
keep_all on_event kept [] = kept
keep_all on_event kept (d ∷ ds) = keep_all on_event (on_event kept d) ds

-- The paths were read in full, and hold these documents, at least one.
pub record IsRead (machine : Machine) (whole : Bool) (inputs : List String) (validator : Validator)
    (docs : List EventDocument) : Type 0 where
  pub compiled : machine.create_validator ≡ some validator
  pub found : machine.path_error inputs ≡ false
  pub items : stream_event_documents machine.host whole inputs ≡ map loaded docs
  pub some_docs : 0 < length docs

not_zero : {A : Type 0} (xs : List A) → ltb 0 (length xs) ≡ false → length xs ≡ 0
not_zero xs h = omega (arith, ltb-false→le 0 (length xs) h)

module _ {S : Type 0} (on_event : S → EventDocument → S) where
  drain_failures :
      (items : List LoadedItem) (s : Streamed S)
      → length s.failures ≤ length (drain on_event s items).failures
  unfolding drain
  drain_failures [] s = omega arith
  drain_failures (loaded d ∷ is) s = drain_failures is (take_item on_event s (loaded d))
  drain_failures (LoadedItem.failure f e ∷ is) s = omega (
    arith,
    drain_failures is (take_item on_event s (LoadedItem.failure f e)),
    length-append {0} s.failures ((f, e) ∷ []),
  )

  -- A run without failures has taken in all that was read.
  drain_whole :
      (items : List LoadedItem) (s : Streamed S)
      → length (drain on_event s items).failures ≡ 0
      → (docs : List EventDocument) × (items ≡ map loaded docs)
        × ((drain on_event s items).kept ≡ keep_all on_event s.kept docs)
        × ((drain on_event s items).total ≡ s.total + length docs)
  unfolding drain
  drain_whole [] s h = ([], refl, refl, omega arith)
  drain_whole (loaded d ∷ is) s h =
      let (ds, i, k, t) = drain_whole is (take_item on_event s (loaded d)) h in
      (d ∷ ds, ap (λ x. loaded d ∷ x) i, k, omega (arith, t))
  drain_whole (LoadedItem.failure f e ∷ is) s h = absurd (
      omega (
        arith,
        h,
        drain_failures is (take_item on_event s (LoadedItem.failure f e)),
        length-append {0} s.failures ((f, e) ∷ []),
      ))

collected_whole :
    (items : List LoadedItem)
    → length (collect_items items).failures ≡ 0
    → items ≡ map loaded (collect_items items).documents
unfolding collect_items
collected_whole [] h = refl
collected_whole (loaded d ∷ is) h = ap (λ x. loaded d ∷ x) (collected_whole is h)
collected_whole (LoadedItem.failure f e ∷ is) h = absurd (omega (arith, h))

pub passes : exit_ok ≢ exit_error
passes e = cc

if_any_passes :
    {S : Type 0} (verdict : S → ℕ) (s : Streamed S) {n : ℕ}
    → n ≢ exit_error
    → exit_of verdict (if_any s) ≡ n
    → (length s.failures ≡ 0) × (0 < s.total) × (verdict s.kept ≡ n)
if_any_passes verdict s ne e = elim (Bool-cases (s.total == 0 && length s.failures == 0)) [
  | inl nothing ↦ absurd (ne (sym (rw nothing at e)))
  | inr something ↦ elim (Bool-cases (ltb 0 (length s.failures))) [
    | inl failed ↦ absurd (ne (sym (rw (something, failed) at e)))
    | inr whole ↦ (
      not_zero s.failures whole,
      counted (not_zero s.failures whole) something,
      rw (something, whole) at e,
    )
  ]
]
  where
    counted : length s.failures ≡ 0 → (s.total == 0 && length s.failures == 0) ≡ false → 0 < s.total
    counted f h = ground arith

module _ (machine : Machine) where
  -- A streamed run that exits with another code than 2 has read its paths in full, and its verdict is on all of it.
  pub exit_of-IsRead :
      {S : Type 0} (on_event : Validator → S → EventDocument → S) (start : S) (verdict : S → ℕ)
      (inputs : List String) {n : ℕ}
      → n ≢ exit_error
      → exit_of verdict (stream_input machine on_event start inputs) ≡ n
      → (v : Validator) × (docs : List EventDocument) × IsRead machine false inputs v docs
        × (verdict (keep_all (on_event v) start docs) ≡ n)
  unfolding stream_input
  exit_of-IsRead on_event start verdict [] ne e = absurd (ne (sym e))
  exit_of-IsRead {S} on_event start verdict (input ∷ inputs) {n} ne e =
      elim (Option-cases machine.create_validator) [
        | inl bad ↦ absurd (ne (sym (rw bad at e)))
        | inr (v, c) ↦ elim (Bool-cases (machine.path_error (input ∷ inputs))) [
          | inl bad ↦ absurd (ne (sym (rw (c, bad) at e)))
          | inr found ↦ streamed v c found (rw (c, found) at e)
        ]
      ]
    where
      streamed :
          (v : Validator)
          → machine.create_validator ≡ some v
          → machine.path_error (input ∷ inputs) ≡ false
          → exit_of verdict (
              if_any (
                drain
                  (on_event v)
                  (record { kept = start; failures = []; total = 0 })
                  (stream_event_documents machine.host false (input ∷ inputs))))
            ≡ n
          → (w : Validator) × (docs : List EventDocument) × IsRead machine false
              (input ∷ inputs)
              w
              docs
            × (verdict (keep_all (on_event w) start docs) ≡ n)
      streamed v c found e =
          let start_state : Streamed S = record { kept = start; failures = []; total = 0 } in
          let items = stream_event_documents machine.host false (input ∷ inputs) in
          let (f, t, ok) = if_any_passes verdict (drain (on_event v) start_state items) ne e in
          let (docs, i, k, m) = drain_whole (on_event v) items start_state f in
          (
            v,
            docs,
            record { compiled = c; found = found; items = i; some_docs = omega (arith, t, m) },
            subst (λ x. verdict x ≡ n) k ok,
          )

  pub exit_of_loaded-IsRead :
      (verdict : Validator → List EventDocument → ℕ) (inputs : List String) {n : ℕ}
      → n ≢ exit_error
      → exit_of_loaded machine verdict (load_input machine inputs) ≡ n
      → (v : Validator) × (docs : List EventDocument) × IsRead machine true inputs v docs
        × (verdict v docs ≡ n)
  unfolding load_input load_event_documents
  exit_of_loaded-IsRead verdict [] ne e = absurd (ne (sym e))
  exit_of_loaded-IsRead verdict (input ∷ inputs) {n} ne e =
      let items = stream_event_documents machine.host true (input ∷ inputs) in
      let result = collect_items items in
      elim (Bool-cases (machine.path_error (input ∷ inputs))) [
        | inl bad ↦ absurd (ne (sym (rw bad at e)))
        | inr found ↦
            elim (Bool-cases (length result.documents == 0 && length result.failures == 0)) [
              | inl nothing ↦ absurd (ne (sym (rw (found, nothing) at e)))
              | inr something ↦ elim (Option-cases machine.create_validator) [
                | inl bad ↦ absurd (ne (sym (rw (found, something, bad) at e)))
                | inr (v, c) ↦ elim (Bool-cases (ltb 0 (length result.failures))) [
                  | inl failed ↦ absurd (ne (sym (rw (found, something, c, failed) at e)))
                  | inr whole ↦
                      let none_failed = not_zero result.failures whole in
                      (
                        v,
                        result.documents,
                        record {
                          compiled = c;
                          found = found;
                          items = collected_whole items none_failed;
                          some_docs = counted result none_failed something;
                        },
                        rw (found, something, c, whole) at e,
                      )
                ]
              ]
            ]
      ]
    where
      counted :
          (result : DocumentLoadResult)
          → length result.failures ≡ 0
          → (length result.documents == 0 && length result.failures == 0) ≡ false
          → 0 < length result.documents
      counted result f h = ground arith
