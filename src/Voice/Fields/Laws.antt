-- ===== src/Voice/Fields/Laws.antt =====
-- Merging loses nothing that was collected.
use hire_os_be.Prelude.{
  ◌+◌, [], ap, arith, Bool, Bool-cases, false, if◌then◌else◌, inl, inr, length, List, none, Option,
  Option-cases, refl, some, String, sym, true, ◌||◌, ◌∙◌, ◌∷◌, ◌≡◌, ◌≤◌,
}
use hire_os_be.Voice.Fields.{
  DiscoveryFields, Field, field_names, filled_lines, merge, merge_from, missing_field_labels,
  missing_labels_of, same_field, set_field,
}

abbrev pub newer : Option String → Option String → Option String
newer old none = old
newer old (some v) = some v

abbrev pub listed : Field → List Field → Bool
listed f [] = false
listed f (g ∷ names) = same_field g f || listed f names

same_field-eq : (f g : Field) → same_field f g ≡ true → f ≡ g
same_field-eq f g h = ground arith

newer-newer : (a b : Option String) → newer (newer a b) b ≡ newer a b
newer-newer a none = refl
newer-newer a (some v) = refl

merge_step :
    (f g : Field) (merged new : DiscoveryFields)
    → (elim (new f) as (λ v. DiscoveryFields) [
      | none ↦ merged
      | some v ↦ set_field f (some v) merged
    ])
        g
      ≡ (if same_field f g then newer (merged f) (new f) else merged g)
merge_step f g merged new = elim (Option-cases (new f)) [
  | inl e ↦ elim (Bool-cases (same_field f g)) [
    | inl s ↦ rw (e, s) (ap merged (sym (same_field-eq f g s)))
    | inr s ↦ rw (e, s) refl
  ]
  | inr (v, e) ↦ rw e refl
]

merge_from-lem :
    (names : List Field) (g : Field) (merged new : DiscoveryFields)
    → merge_from names merged new g
      ≡ (if listed g names then newer (merged g) (new g) else merged g)
unfolding merge_from
merge_from-lem [] g merged new = refl
merge_from-lem (f ∷ names) g merged new =
    merge_from-lem names g (elim (new f) [ none ↦ merged | some v ↦ set_field f (some v) merged ])
      new
    ∙ rw (merge_step f g merged new) (elim (Bool-cases (same_field f g)) [
      | inr d ↦ rw d refl
      | inl s ↦
          let e : f ≡ g = same_field-eq f g s in
          elim (Bool-cases (listed g names)) [
            | inl l ↦ rw (s, l) (rw e (newer-newer (merged g) (new g)))
            | inr l ↦ rw (s, l) (rw e refl)
          ]
    ])

listed-field_names : (f : Field) → listed f field_names ≡ true
listed-field_names f = ground arith

-- After a merge every field has the new value where there is one, and else the old value.
pub merge_lem : (old new : DiscoveryFields) (f : Field) → merge old new f ≡ newer (old f) (new f)
unfolding merge
merge_lem old new f = merge_from-lem field_names f old new ∙ rw (listed-field_names f) refl

-- Two extractions one after the other collect what their merge collects: an extraction that covers
-- the segments of two gives the same fields.
pub merge_assoc :
    (a b c : DiscoveryFields) (f : Field) → merge (merge a b) c f ≡ merge a (merge b c) f
merge_assoc a b c f =
    rw (merge_lem (merge a b) c f, merge_lem a b f, merge_lem a (merge b c) f, merge_lem b c f)
      (newer_assoc (a f) (b f) (c f))
  where
    newer_assoc : (x y z : Option String) → newer (newer x y) z ≡ newer x (newer y z)
    newer_assoc x y none = refl
    newer_assoc x y (some v) = refl

missing-le :
    (names : List Field) (old new : DiscoveryFields)
    → ((f : Field) → new f ≡ none → old f ≡ none)
    → length (missing_labels_of names new) ≤ length (missing_labels_of names old)
unfolding missing_labels_of
missing-le [] old new h = omega arith
missing-le (f ∷ names) old new h = ground (arith, h f, missing-le names old new h)

-- Merging never adds to the labels that are still missing.
pub missing_field_labels-merge-le :
    (old new : DiscoveryFields)
    → length (missing_field_labels (merge old new)) ≤ length (missing_field_labels old)
unfolding missing_field_labels
missing_field_labels-merge-le old new =
    missing-le field_names old (merge old new)
      (λ f e. kept (old f) (new f) (rw (merge_lem old new f) at e))
  where
    kept : (x y : Option String) → newer x y ≡ none → x ≡ none
    kept x none e = e
    kept x (some v) e = cc

filled-add-missing :
    (names : List Field) (state : DiscoveryFields)
    → length (filled_lines names state) + length (missing_labels_of names state) ≡ length names
unfolding filled_lines missing_labels_of
filled-add-missing [] state = refl
filled-add-missing (f ∷ names) state = ground (arith, filled-add-missing names state)

-- Each of the sixteen fields is shown once in a prompt: as captured or as missing.
pub filled-add-missing_field_labels :
    (state : DiscoveryFields)
    → length (filled_lines field_names state) + length (missing_field_labels state) ≡ 16
unfolding missing_field_labels
filled-add-missing_field_labels state = filled-add-missing field_names state
