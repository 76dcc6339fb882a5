-- ===== src/Voice/Discovery/Laws.antt =====
-- No transcript is lost, no field is lost, and the extraction settles.
use hire_os_be.Prelude.{
  [], ap, arith, Bool-cases, eq_iff, inl, inr, is_empty, List, none, Option, Option-cases, refl,
  some, String, suc, sym, true, ◌||◌, ℕ, ◌∷◌, ◌≡◌, ◌⊎◌,
}
use hire_os_be.Voice.Fields.{DiscoveryFields, Field, merge}
use hire_os_be.Voice.Fields.Laws.{merge_lem}
use hire_os_be.Voice.Discovery.{
  acquire, Discovery, extracted, extracting, finish, here, loop, next, Phase, Reach, same_lines,
  same_option, schedule, schedule_extraction, start, Step, unlocked,
}

pub same_lines-eq : (xs ys : List String) → same_lines xs ys ≡ true → xs ≡ ys
unfolding same_lines
same_lines-eq [] [] h = refl
same_lines-eq [] (y ∷ ys) h = cc
same_lines-eq (x ∷ xs) [] h = cc
same_lines-eq (x ∷ xs) (y ∷ ys) h = ground (arith, eq_iff x y, same_lines-eq xs ys)

pub same_lines_refl : (xs : List String) → same_lines xs xs ≡ true
unfolding same_lines
same_lines_refl [] = refl
same_lines_refl (x ∷ xs) = ground (arith, eq_iff x x, same_lines_refl xs)

same_option-eq :
    (xs : List String) (o : Option (List String)) → same_option xs o ≡ true → o ≡ some xs
same_option-eq xs none h = cc
same_option-eq xs (some ys) h = ap some (sym (same_lines-eq xs ys h))

-- The newest transcript is processed, or something is left to process it.
pub data IsCovered (d : Discovery) : Type 0 where
  nothing : d.pending_lines ≡ none → IsCovered d
  processed :
      (l : List String) → d.pending_lines ≡ some l → d.last_processed_lines ≡ some l → IsCovered d
  running : (l : List String) → d.phase ≡ extracting l → IsCovered d
  waiting : (n : ℕ) → d.tasks ≡ suc n → IsCovered d

loop-IsCovered : (d : Discovery) → IsCovered (loop d)
unfolding loop
loop-IsCovered d = elim (Option-cases d.pending_lines) [
  | inl e ↦ nothing (ground arith)
  | inr (l, e) ↦ elim (Bool-cases (same_option l d.last_processed_lines)) [
    | inr other ↦ running l (ground arith)
    | inl same ↦
        processed l (ground arith) (same_option-eq l (loop d).last_processed_lines (ground arith))
  ]
]

Phase-cases : (p : Phase) → (p ≡ unlocked) ⊎ ((l : List String) × (p ≡ extracting l))
Phase-cases unlocked = inl refl
Phase-cases (extracting l) = inr (l, refl)

schedule-IsCovered :
    (lines : List String) (d : Discovery) → IsCovered d → IsCovered (schedule_extraction lines d)
unfolding schedule_extraction
schedule-IsCovered lines d c =
    elim (Bool-cases (is_empty lines || same_option lines d.last_processed_lines)) [
      | inl skip ↦ rw skip c
      | inr new ↦ elim (Phase-cases d.phase) [
        | inl e ↦ waiting d.tasks (ground arith)
        | inr (l, e) ↦ running l (ground arith)
      ]
    ]

acquire-IsCovered : (left : ℕ) (d : Discovery) → IsCovered (acquire left d)
unfolding acquire
acquire-IsCovered left d = loop-IsCovered (record d { tasks = left })

extracted-IsCovered :
    (lines : List String) (result : Option DiscoveryFields) (d : Discovery)
    → IsCovered (extracted lines result d)
unfolding extracted
extracted-IsCovered lines result d = loop-IsCovered (record d {
  fields = elim result [ none ↦ d.fields | some new ↦ merge d.fields new ];
  last_processed_lines = some lines;
})

-- In every reachable state the newest scheduled transcript has been processed, or an extraction is
-- running, or a task waits that will look at it: an update that arrives during an extraction is
-- never lost.
pub Reach-IsCovered : {d : Discovery} → Reach d → IsCovered d
Reach-IsCovered here = nothing refl
Reach-IsCovered (next {d} r (schedule lines)) = schedule-IsCovered lines d (Reach-IsCovered r)
Reach-IsCovered (next {d} r (start left free some_task)) = acquire-IsCovered left d
Reach-IsCovered (next {d} r (finish lines result held)) = extracted-IsCovered lines result d

-- An extraction, followed by at most one more, frees the lock, if nothing is scheduled meanwhile:
-- whatever the extractions give, the second is the last.
pub extracted_settles :
    (d : Discovery) (lines : List String) (first second : Option DiscoveryFields)
    → ((extracted lines first d).phase ≡ unlocked)
      ⊎ ((more : List String) × ((extracted lines first d).phase ≡ extracting more)
          × ((extracted more second (extracted lines first d)).phase ≡ unlocked))
unfolding extracted loop
extracted_settles d lines first second = elim (Option-cases d.pending_lines) [
  | inl e ↦ inl (ground arith)
  | inr (l, e) ↦ elim (Bool-cases (same_lines l lines)) [
    | inl same ↦ inl (ground arith)
    | inr other ↦ inr (l, ground arith, ground (arith, same_lines_refl l))
  ]
]

pub fields-loop : (d : Discovery) → (loop d).fields ≡ d.fields
unfolding loop
fields-loop d = elim (Option-cases d.pending_lines) [
  | inl e ↦ rw (e, loop) refl
  | inr (l, e) ↦ elim (Bool-cases (same_option l d.last_processed_lines)) [
    | inl s ↦ rw (e, s, loop) refl
    | inr s ↦ rw (e, s, loop) refl
  ]
]

-- No step clears a field: what was collected stays, or is replaced by a newer text.
pub Step-keeps_fields :
    {d e : Discovery} (f : Field) (v : String)
    → Step d e
    → d.fields f ≡ some v
    → (u : String) × (e.fields f ≡ some u)
Step-keeps_fields {d} f v (schedule lines) h =
    unfold schedule_extraction in
    elim (Bool-cases (is_empty lines || same_option lines d.last_processed_lines)) [
      | inl skip ↦ (v, rw skip h)
      | inr new ↦ (v, rw new h)
    ]
Step-keeps_fields {d} f v (start left free t) h = (v, unfold acquire in rw fields-loop h)
Step-keeps_fields {d} f v (finish lines none held) h = (v, unfold extracted in rw fields-loop h)
Step-keeps_fields {d} f v (finish lines (some new) held) h = elim (Option-cases (new f)) [
  | inl e ↦ (v, unfold extracted in rw (fields-loop, merge_lem, e) h)
  | inr (u, e) ↦ (u, unfold extracted in rw (fields-loop, merge_lem, e) refl)
]
