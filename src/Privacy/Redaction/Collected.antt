-- ===== src/Privacy/Redaction/Collected.antt =====
-- The paths of what the linter collects.
use open_audit_model.Common.{
  ℕ, ◌+◌, String, refl, ◌&&◌, ◌||◌, Option, none, some, List, [], ◌∷◌, ◌++◌, All, All-append,
  contains, ◌≡◌, inl, inr, Bool, true, Bool-cases, select, flat_map, includes,
}
use open_audit_model.Json.{Items, cons, nil, Value, undef, null, obj, arr, num, bool, str}
use open_audit_model.Privacy.Platform.{Platform}
use open_audit_model.Privacy.Rules.{
  prohibited_credential_field, evidence_reference_query, raw_payload_field, PrivacyFinding,
  oversized_unfiltered_value,
}
use open_audit_model.Privacy.UrlAnalysis.{analyze_url, UrlAnalysis}
use open_audit_model.Privacy.FieldNames.{
  is_prohibited_credential_field_name, is_raw_payload_field_name,
}
use open_audit_model.Privacy.SizeAnalysis.{size_thresholds, profile_value, exceeded_signals}
use open_audit_model.Privacy.Traverse.{read_path, traverse, VisitedValue}
use open_audit_model.Privacy.LintEvent.{
  add_defined, add_text, related_roots, related_of, deep_roots, scalar_locations, references_from,
  references_of, evidence_references, found, is_credential_value, is_populated, name_findings,
  evidence_findings, key_findings, text_findings, visited_findings, root_findings, evidence_text,
  reference_findings, Root, deep_paths, roots_at, scalar_paths, is_container, size_roots,
  has_signals, collected,
}
use open_audit_model.Privacy.Redaction.{
  All-flat_map, AtSafePath, VisitsSafe, RootSafe, visits-Safe, found-Safe, value_findings-Safe,
  IsSafePath, fixed, attributes, reference, join, fixed_paths,
}

module _ (platform : Platform) where
  join_roots :
      (xs ys : List Root)
      → All (RootSafe platform) xs
      → All (RootSafe platform) ys
      → All (RootSafe platform) (xs ++ ys)
  join_roots xs ys a b = All-append (RootSafe platform) xs ys a b

  text-Safe :
      (v : Value) (p : String) (k : Option String)
      → IsSafePath platform p
      → All (AtSafePath platform) (text_findings platform v p k)
  text-Safe (str t) p k s = value_findings-Safe platform t p k s
  text-Safe null p k s = tt
  text-Safe undef p k s = tt
  text-Safe (bool b) p k s = tt
  text-Safe (num n) p k s = tt
  text-Safe (arr xs) p k s = tt
  text-Safe (obj fs) p k s = tt

  key-Safe :
      (k : Option String) (v : Value) (p : String)
      → IsSafePath platform p
      → All (AtSafePath platform) (key_findings platform k v p)
  unfolding name_findings
  key-Safe none v p s = tt
  key-Safe (some k) v p s =
      join platform _ _
        (join platform _ _
          (found-Safe platform
            (is_prohibited_credential_field_name platform.to_lower_case k
              && is_credential_value platform v)
            prohibited_credential_field p s)
          (found-Safe platform
            (is_raw_payload_field_name platform.to_lower_case k && is_populated platform v)
            raw_payload_field p s))
        (value_findings-Safe platform k p none s)

  visited-Safe :
      (v : VisitedValue)
      → VisitsSafe platform v
      → All (AtSafePath platform) (visited_findings platform v)
  unfolding visited_findings
  visited-Safe v s =
      join platform _ _ (key-Safe v.key v.value v.path s) (text-Safe v.value v.path v.key s)

  root-Safe :
      (r : Root) → RootSafe platform r → All (AtSafePath platform) (root_findings platform r)
  unfolding traverse
  root-Safe r s =
      All-flat_map (VisitsSafe platform) (AtSafePath platform) (visited_findings platform)
        visited-Safe _ (visits-Safe platform r.value r.path none 0 s)

  evidence-Safe :
      (t p : String)
      → IsSafePath platform p
      → All (AtSafePath platform) (evidence_findings platform t p)
  unfolding evidence_findings
  evidence-Safe t p s = by_url (analyze_url platform t)
    where
      by_url :
          (o : Option UrlAnalysis)
          → All (AtSafePath platform) (elim o [
            | some url ↦ found (url.has_query || url.has_fragment) evidence_reference_query p
            | none ↦ found (contains "?" t || contains "#" t) evidence_reference_query p
          ])
      by_url (some url) =
          found-Safe platform (url.has_query || url.has_fragment) evidence_reference_query p s
      by_url none =
          found-Safe platform (contains "?" t || contains "#" t) evidence_reference_query p s

  reference-Safe :
      (r : Root) → RootSafe platform r → All (AtSafePath platform) (reference_findings platform r)
  reference-Safe r s = join platform _ _ (of_value r.value) (text-Safe r.value r.path none s)
    where
      of_value : (v : Value) → All (AtSafePath platform) (evidence_text platform v r.path)
      of_value (str t) = evidence-Safe t r.path s
      of_value null = tt
      of_value undef = tt
      of_value (bool b) = tt
      of_value (num n) = tt
      of_value (arr xs) = tt
      of_value (obj fs) = tt

  defined-Safe :
      (p : String) (v : Value) → IsSafePath platform p → All (RootSafe platform) (add_defined p v)
  defined-Safe p undef s = tt
  defined-Safe p null s = (s, tt)
  defined-Safe p (bool b) s = (s, tt)
  defined-Safe p (num n) s = (s, tt)
  defined-Safe p (str t) s = (s, tt)
  defined-Safe p (arr xs) s = (s, tt)
  defined-Safe p (obj fs) s = (s, tt)

  add_text-Safe :
      (p : String) (v : Value) → IsSafePath platform p → All (RootSafe platform) (add_text p v)
  add_text-Safe p (str t) s = (s, tt)
  add_text-Safe p undef s = tt
  add_text-Safe p null s = tt
  add_text-Safe p (bool b) s = tt
  add_text-Safe p (num n) s = tt
  add_text-Safe p (arr xs) s = tt
  add_text-Safe p (obj fs) s = tt

  related-Safe : (i : ℕ) (xs : Items) → All (RootSafe platform) (related_roots i xs)
  related-Safe i nil = tt
  related-Safe i (cons v xs) =
      join_roots _ _ (defined-Safe _ (read_path v ("attributes" ∷ [])) (attributes i))
        (related-Safe (i + 1) xs)

  references-Safe : (i : ℕ) (xs : Items) → All (RootSafe platform) (references_from i xs)
  references-Safe i nil = tt
  references-Safe i (cons v xs) =
      join_roots _ _ (add_text-Safe _ (read_path v ("reference" ∷ [])) (reference i))
        (references-Safe (i + 1) xs)

  roots_at-Safe :
      (add : String → Value → List Root)
      → ((p : String) (v : Value) → IsSafePath platform p → All (RootSafe platform) (add p v))
      → (event : Value) (ps : List (String × List String))
      → All (λ e. includes fixed_paths e.0 ≡ true) ps
      → All (RootSafe platform) (roots_at add event ps)
  roots_at-Safe add safe event [] h = tt
  roots_at-Safe add safe event ((p, names) ∷ ps) (e, h) =
      join_roots _ _ (safe p (read_path event names) (fixed p e))
        (roots_at-Safe add safe event ps h)

  deep_roots-Safe : (event : Value) → All (RootSafe platform) (deep_roots event)
  unfolding deep_roots
  deep_roots-Safe event =
      join_roots _ _
        (roots_at-Safe add_defined defined-Safe event deep_paths
          (refl, (refl, (refl, (refl, (refl, (refl, (refl, tt))))))))
        (related (read_path event ("relatedResources" ∷ [])))
    where
      related : (v : Value) → All (RootSafe platform) (related_of v)
      related (arr xs) = related-Safe 0 xs
      related undef = tt
      related null = tt
      related (bool b) = tt
      related (num n) = tt
      related (str t) = tt
      related (obj fs) = tt

  scalar_locations-Safe : (event : Value) → All (RootSafe platform) (scalar_locations event)
  unfolding scalar_locations
  scalar_locations-Safe event =
      roots_at-Safe add_text add_text-Safe event scalar_paths
        (refl, (refl, (refl, (refl, (refl, (refl, (refl, tt)))))))

  evidence_references-Safe : (event : Value) → All (RootSafe platform) (evidence_references event)
  unfolding evidence_references
  evidence_references-Safe event = of_value (read_path event ("evidence" ∷ []))
    where
      of_value : (v : Value) → All (RootSafe platform) (references_of v)
      of_value (arr xs) = references-Safe 0 xs
      of_value undef = tt
      of_value null = tt
      of_value (bool b) = tt
      of_value (num n) = tt
      of_value (str t) = tt
      of_value (obj fs) = tt

  All-select :
      (q : Root → Bool) (rs : List Root)
      → All (RootSafe platform) rs
      → All (RootSafe platform) (select q rs)
  All-select q [] h = tt
  All-select q (r ∷ rs) (s, h) = elim (Bool-cases (q r)) [
    | inl e ↦ rw e (s, All-select q rs h)
    | inr n ↦ rw n (All-select q rs h)
  ]

  pub collected-Safe : (event : Value) → All (AtSafePath platform) (collected platform event)
  unfolding collected size_roots
  collected-Safe event = join platform _ _ (gather _ root-Safe _ (deep_roots-Safe event)) (
      join platform _ _
        (gather _ (λ r s. text-Safe r.value r.path none s) _ (scalar_locations-Safe event))
        (join platform _ _ (gather _ reference-Safe _ (evidence_references-Safe event)) (
          gather _
            (λ r s.
              found-Safe platform
                (has_signals platform (exceeded_signals (profile_value r.value) size_thresholds))
                oversized_unfiltered_value r.path s)
            _ (All-select (λ r. is_container r.value) (deep_roots event) (deep_roots-Safe event)))))
    where
      gather :
          (f : Root → List PrivacyFinding)
          → ((r : Root) → RootSafe platform r → All (AtSafePath platform) (f r))
          → (rs : List Root) → All (RootSafe platform) rs
          → All (AtSafePath platform) (flat_map f rs)
      gather f h rs s = All-flat_map (RootSafe platform) (AtSafePath platform) f h rs s
