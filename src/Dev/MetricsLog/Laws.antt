-- ===== src/Dev/MetricsLog/Laws.antt =====
-- The metrics log of ai-service/app/model_gateway/metrics_log.py: what is read back of what was
-- appended.
use hire_os_be.Prelude.{
  ◌++◌, ◌-◌, ◌<◌, [], All, ap, arith, Bool-cases, drop, eqb, false, inl, inr, last_n, leb, length,
  length-append, length-map, List, ltb, map, none, Option, Option-cases, refl, some, String, sym,
  true, ℕ, ◌∙◌, ◌∷◌, ◌≡◌, ◌≤◌,
}
use hire_os_be.Prelude.{
  ◌>>=◌, All-drop, drop-append_le, key_error, last_n-append, last_n_all, ok, other, raise, Result,
}
use mathlib.Core.List.{append-nil, append_assoc}
use hire_os_be.Prelude.Dict
use hire_os_be.Prelude.Dict.{Dict, get-put}
use hire_os_be.Prelude.Json.{dict, get_field, get_field-dict, Json, json_num}
use hire_os_be.Dev.MetricsLog.{
  append_jsonl, appended, contents, File, get_ts, item_ts, line_of, no_faults, read_lines,
  read_recent_jsonl, seconds, size, skipped, slice_last, stamped, written,
}

>>=-ok {ℓ} : {A : Type ℓ} (r : Result A) → (r >>= λ a. ok a) ≡ r
>>=-ok (ok a) = refl
>>=-ok (raise e) = refl

get-update_absent :
    (k : String) (r : List (String × Json)) (d : Dict Json)
    → Dict.has k r ≡ false
    → Dict.get k (Dict.update r d) ≡ Dict.get k d
unfolding Dict.update Dict.has
get-update_absent k [] d h = refl
get-update_absent k ((j, v) ∷ r) d h =
    get-update_absent k r (Dict.put j v d) (ground arith) ∙ rw (get-put j k v d) (ground arith)

-- The time of a record that names none itself is the time of the append.
pub ts-stamped :
    (now : ℕ) (r : Dict Json)
    → Dict.has "ts" r ≡ false
    → get_field "ts" (dict (stamped now r)) ≡ ok (some (json_num now))
unfolding stamped Dict.get
ts-stamped now r own = get_field-dict "ts" (stamped now r) ∙ ap ok (get-update_absent "ts" r _ own)

pub get_ts-stamped :
    (now : ℕ) (r : Dict Json)
    → Dict.has "ts" r ≡ false
    → get_ts (dict (stamped now r)) ≡ ok (json_num now)
unfolding get_ts
get_ts-stamped now r own =
    ap (λ g. g >>= λ found. ok (elim found [ none ↦ json_num 0 | some v ↦ v ]))
      (ts-stamped now r own)

pub item_ts-stamped :
    (now : ℕ) (r : Dict Json)
    → Dict.has "ts" r ≡ false
    → item_ts (dict (stamped now r)) ≡ ok (json_num now)
unfolding item_ts
item_ts-stamped now r own =
    ap
      (λ g. elim g [
        | raise e ↦ raise (other "TypeError")
        | ok found ↦ elim found [ none ↦ raise (key_error "ts") | some v ↦ ok v ]
      ])
      (ts-stamped now r own)

late_leb : (t now : ℕ) → t < now → leb now t ≡ false
late_leb t now late = ground arith

-- A record whose time is at most t.
abbrev pub IsPast : ℕ → Json → Type 0
IsPast t r = skipped (some t) r ≡ ok true

abbrev pub IsOld : ℕ → Option Json → Type 0
IsOld t none = Unit
IsOld t (some r) = IsPast t r

-- An append after the time t, of a record that names no time itself.
abbrev pub IsNew : ℕ → ℕ × Dict Json → Type 0
IsNew t (now, r) = (t < now) × (Dict.has "ts" r ≡ false)

abbrev pub record_of : ℕ × Dict Json → Json
record_of (now, r) = dict (stamped now r)

module _ (dumps : Json → String) (loads : String → Option Json) where
  -- A line that a read after the time t does not return.
  abbrev pub IsStale : ℕ → String → Type 0
  IsStale t line = IsOld t (loads line)

  abbrev pub written_line : ℕ × Dict Json → String
  written_line (now, r) = line_of dumps now r

  -- Appends that nothing refuses, in order.
  unfoldable pub appends : List (ℕ × Dict Json) → File → File
  appends [] file = file
  appends ((now, r) ∷ more) file = appends more (append_jsonl dumps no_faults now r file).1

  pub contents-append :
      (now : ℕ) (r : Dict Json) (file : File)
      → last_n 1000 (contents (append_jsonl dumps no_faults now r file).1)
        ≡ last_n 1000 (contents file ++ line_of dumps now r ∷ [])
  unfolding append_jsonl written appended
  contents-append now r file = elim (Bool-cases (ltb 2000000 (size (contents file)))) [
    | inl e ↦ rw e (last_n-append 1000 (contents file) _)
    | inr e ↦ rw e refl
  ]

  -- Trimming the file is invisible to a reader, who looks at the last 1000 lines.
  pub contents-appends :
      (rs : List (ℕ × Dict Json)) (file : File)
      → last_n 1000 (contents (appends rs file))
        ≡ last_n 1000 (contents file ++ map written_line rs)
  unfolding appends
  contents-appends [] file = rw append-nil
  contents-appends ((now, r) ∷ more) file =
      contents-appends more (append_jsonl dumps no_faults now r file).1
      ∙ sym (last_n-append 1000 (contents (append_jsonl dumps no_faults now r file).1) _)
      ∙ ap (λ l. last_n 1000 (l ++ map written_line more)) (contents-append now r file)
      ∙ last_n-append 1000 (contents file ++ line_of dumps now r ∷ []) _
      ∙ ap (last_n 1000) (append_assoc (contents file) _ _)

  read_lines-stale :
      (t : ℕ) (xs ys : List String)
      → All (IsStale t) xs
      → read_lines loads (some t) (xs ++ ys) ≡ read_lines loads (some t) ys
  unfolding read_lines
  read_lines-stale t [] ys h = refl
  read_lines-stale t (x ∷ xs) ys h = elim (Option-cases (loads x)) [
    | inl e ↦ rw e (read_lines-stale t xs ys h.1)
    | inr (r, e) ↦
        rw (e, (rw (IsStale, IsOld, e) at h.0))
          (>>=-ok (read_lines loads (some t) (xs ++ ys)) ∙ read_lines-stale t xs ys h.1)
  ]

  module _ (round : (d : Dict Json) → loads (dumps (dict d)) ≡ some (dict d)) where
    skipped-new :
        (t now : ℕ) (r : Dict Json)
        → IsNew t (now, r)
        → skipped (some t) (dict (stamped now r)) ≡ ok false
    unfolding skipped
    skipped-new t now r (late, own) =
        ap (λ g. g >>= λ v. seconds v >>= λ n. ok (leb n t)) (get_ts-stamped now r own)
        ∙ ap ok (late_leb t now late)

    read_lines-new :
        (t : ℕ) (rs : List (ℕ × Dict Json))
        → All (IsNew t) rs
        → read_lines loads (some t) (map written_line rs) ≡ ok (map record_of rs)
    unfolding read_lines line_of
    read_lines-new t [] h = refl
    read_lines-new t ((now, r) ∷ more) h =
        rw (round (stamped now r), skipped-new t now r h.0, read_lines-new t more h.1) refl

  pub read_recent-contents :
      (limit : ℕ) (after_ts : Option ℕ) (file : File)
      → read_recent_jsonl loads limit after_ts file ≡ (
          read_lines loads after_ts (last_n 1000 (contents file)) >>= λ records.
          ok (slice_last limit records))
  unfolding read_recent_jsonl read_lines slice_last
  read_recent-contents limit after_ts none = ground arith
  read_recent-contents limit after_ts (some lines) = refl

  pub slice_last_all {ℓ} :
      {A : Type ℓ} (limit : ℕ) (l : List A) → length l ≤ limit → slice_last limit l ≡ l
  unfolding slice_last
  slice_last_all limit l h = elim (Bool-cases (eqb limit 0)) [
    | inl e ↦ rw e
    | inr e ↦ rw e (last_n_all limit l h)
  ]

  pub last_n-append_le {ℓ} :
      {A : Type ℓ} (n : ℕ) (xs ys : List A)
      → length ys ≤ n
      → last_n n (xs ++ ys) ≡ drop (length (xs ++ ys) - n) xs ++ ys
  last_n-append_le n xs ys h =
      drop-append_le (length (xs ++ ys) - n) xs ys (omega (arith, length-append xs ys))

  -- If every line of a file that parses is a record of a time up to t, then after at most as many
  -- appends as the limit, and at most 1000, that nothing refuses, of records that name no time, at times
  -- after t, a read after t returns the appended records, each once and in order, whether or not the
  -- file was trimmed in between. `json.loads` reads back what `json.dumps` wrote of a dictionary.
  pub read-appends :
      ((d : Dict Json) → loads (dumps (dict d)) ≡ some (dict d))
      → (t limit : ℕ) (rs : List (ℕ × Dict Json)) (file : File) → All (IsStale t) (contents file)
      → All (IsNew t) rs
      → length rs ≤ limit
      → length rs ≤ 1000
      → read_recent_jsonl loads limit (some t) (appends rs file) ≡ ok (map record_of rs)
  read-appends round t limit rs file stale new few few' =
      read_recent-contents limit (some t) (appends rs file)
      ∙ ap (λ l. read_lines loads (some t) l >>= λ records. ok (slice_last limit records))
          (contents-appends rs file
            ∙ last_n-append_le 1000 (contents file) _ (omega (arith, length-map written_line rs)))
      ∙ ap (λ r. r >>= λ records. ok (slice_last limit records))
          (read_lines-stale t _ _ (All-drop (IsStale t) _ (contents file) stale)
            ∙ read_lines-new round t rs new)
      ∙ ap ok (slice_last_all limit _ (omega (arith, length-map record_of rs)))
