-- ===== src/Dev/MetricsLog/Lookup.antt =====
-- The lookups of ai-service/app/model_gateway/metrics_log.py: the latest record, the record of a
-- given time, and what later reads skip.
use hire_os_be.Prelude.{
  ◌++◌, ◌-◌, ◌<◌, [], All, ap, arith, drop, eqb, false, if◌then◌else◌, inl, inr, last_n, leb,
  length, length-append, length-last_n-le, List, none, Option, Option-cases, refl, some, String,
  suc, true, ℕ, ◌∙◌, ◌∷◌, ◌≡◌, ◌≤◌,
}
use hire_os_be.Prelude.{◌>>=◌, >>=-eq-ok, All-drop, drop-append_all, ok, ok-inj, raise}
use hire_os_be.Prelude.Dict
use hire_os_be.Prelude.Dict.{Dict}
use hire_os_be.Prelude.Json.{dict, get_field, Json, json_num}
use hire_os_be.Dev.MetricsLog.{
  append_jsonl, contents, File, find_by_ts, first_ts, get_ts, is_ts, item_ts, last, latest_ts,
  line_of, no_faults, read_lines, read_recent_jsonl, seconds, skipped, slice_last, stamped,
}
use hire_os_be.Dev.MetricsLog.Laws.{
  contents-append, IsOld, IsPast, IsStale, item_ts-stamped, last_n-append_le, read_recent-contents,
  slice_last_all, ts-stamped,
}

last_n-snoc {ℓ} : {A : Type ℓ} (l : List A) (a : A) → last_n 1 (l ++ a ∷ []) ≡ a ∷ []
last_n-snoc l a =
    ap (λ k. drop k (l ++ a ∷ [])) (omega (arith, length-append l (a ∷ [])))
    ∙ drop-append_all l (a ∷ [])

IsPast-time :
    (t : ℕ) (r : Json)
    → IsPast t r
    → (v : Json) × (n : ℕ) × (get_ts r ≡ ok v) × (seconds v ≡ ok n) × (leb n t ≡ true)
unfolding skipped
IsPast-time t r past =
    let (v, got, more) = >>=-eq-ok (get_ts r) _ past in
    let (n, number, le) = >>=-eq-ok (seconds v) _ more in (v, n, got, number, ok-inj le)

leb_trans : (n t u : ℕ) → leb n t ≡ true → t ≤ u → leb n u ≡ true
leb_trans n t u le h = ground arith

pub IsPast-le : (t u : ℕ) (r : Json) → t ≤ u → IsPast t r → IsPast u r
unfolding skipped
IsPast-le t u r h past =
    let (v, n, got, number, le) = IsPast-time t r past in
    ap (λ g. g >>= λ v. seconds v >>= λ n. ok (leb n u)) got
    ∙ ap (λ g. g >>= λ n. ok (leb n u)) number
    ∙ ap ok (leb_trans n t u le h)

eqb_same : (n : ℕ) → eqb n n ≡ true
eqb_same n = ground arith

past_eqb : (n t now : ℕ) → leb n t ≡ true → t < now → eqb n now ≡ false
past_eqb n t now le late = ground arith

-- The time of a past record is not a later one.
past-is_ts :
    (t now : ℕ) (r : Json)
    → IsPast t r
    → t < now
    → (f : Option Json) × (get_field "ts" r ≡ ok f) × (is_ts now f ≡ false)
unfolding get_ts is_ts
past-is_ts t now r past late =
    let (v, n, got, number, le) = IsPast-time t r past in
    let (f, field, is_v) = >>=-eq-ok (get_field "ts" r) _ got in
    (f, field, found f v n (ok-inj is_v) number le)
  where
    found :
        (f : Option Json) (v : Json) (n : ℕ)
        → elim f [ none ↦ json_num 0 | some w ↦ w ] ≡ v
        → seconds v ≡ ok n
        → leb n t ≡ true
        → is_ts now f ≡ false
    found none v n e number le = refl
    found (some w) v n e number le =
        ap (λ g. elim g [ ok n ↦ eqb n now | raise x ↦ false ]) (ap seconds e ∙ number)
        ∙ past_eqb n t now le late

first_ts-past :
    (t now : ℕ) (xs ys : List Json)
    → All (IsPast t) xs
    → t < now
    → first_ts now (xs ++ ys) ≡ first_ts now ys
unfolding first_ts
first_ts-past t now [] ys h late = refl
first_ts-past t now (x ∷ xs) ys h late =
    let (f, field, other_ts) = past-is_ts t now x h.0 late in
    ap (λ g. g >>= λ v. if is_ts now v then ok (some x) else first_ts now (xs ++ ys)) field
    ∙ ap (λ b. if b then ok (some x) else first_ts now (xs ++ ys)) other_ts
    ∙ first_ts-past t now xs ys h.1 late

abbrev consider : Option Json → List Json → List Json
consider none l = l
consider (some r) l = r ∷ l

consider-append : (o : Option Json) (l m : List Json) → consider o (l ++ m) ≡ consider o l ++ m
consider-append none l m = refl
consider-append (some r) l m = refl

length-consider-le : (o : Option Json) (l : List Json) → length (consider o l) ≤ suc (length l)
length-consider-le none l = omega arith
length-consider-le (some r) l = omega arith

consider-All :
    (t : ℕ) (o : Option Json) (l : List Json)
    → IsOld t o
    → All (IsPast t) l
    → All (IsPast t) (consider o l)
consider-All t none l h k = k
consider-All t (some r) l h k = (h, k)

module _ (dumps : Json → String) (loads : String → Option Json) where
  -- The records of the lines that parse.
  unfoldable parsed : List String → List Json
  parsed [] = []
  parsed (line ∷ lines) = consider (loads line) (parsed lines)

  read_lines-parsed : (lines : List String) → read_lines loads none lines ≡ ok (parsed lines)
  unfolding read_lines parsed skipped
  read_lines-parsed [] = refl
  read_lines-parsed (line ∷ lines) = elim (Option-cases (loads line)) [
    | inl e ↦ rw (e, read_lines, parsed) (read_lines-parsed lines)
    | inr (r, e) ↦ rw (e, read_lines, parsed, read_lines-parsed lines) refl
  ]

  parsed-append : (xs ys : List String) → parsed (xs ++ ys) ≡ parsed xs ++ parsed ys
  unfolding parsed
  parsed-append [] ys = refl
  parsed-append (x ∷ xs) ys =
      ap (consider (loads x)) (parsed-append xs ys)
      ∙ consider-append (loads x) (parsed xs) (parsed ys)

  length-parsed-le : (xs : List String) → length (parsed xs) ≤ length xs
  unfolding parsed
  length-parsed-le [] = omega arith
  length-parsed-le (x ∷ xs) =
      omega (arith, length-parsed-le xs, length-consider-le (loads x) (parsed xs))

  -- The earlier lines that a reader still sees after an append.
  abbrev older : ℕ → Dict Json → File → List String
  older now r file =
      drop (length (contents file ++ line_of dumps now r ∷ []) - 1000) (contents file)

  -- What the last lines of the file hold after an append.
  after-append :
      (now : ℕ) (r : Dict Json) (file : File)
      → last_n 1000 (contents (append_jsonl dumps no_faults now r file).1)
        ≡ older now r file ++ line_of dumps now r ∷ []
  after-append now r file =
      contents-append dumps loads now r file
      ∙ last_n-append_le dumps loads 1000 (contents file) (line_of dumps now r ∷ []) (omega arith)

  parsed-IsPast :
      (t : ℕ) (xs : List String) → All (IsStale dumps loads t) xs → All (IsPast t) (parsed xs)
  unfolding parsed
  parsed-IsPast t [] h = tt
  parsed-IsPast t (x ∷ xs) h = consider-All t (loads x) (parsed xs) h.0 (parsed-IsPast t xs h.1)

  module _ (round : (d : Dict Json) → loads (dumps (dict d)) ≡ some (dict d)) where
    -- The records of the window that a read looks at, after an append.
    parsed-after :
        (now : ℕ) (r : Dict Json) (file : File)
        → parsed (last_n 1000 (contents (append_jsonl dumps no_faults now r file).1))
          ≡ parsed (older now r file) ++ dict (stamped now r) ∷ []
    unfolding parsed line_of
    parsed-after now r file =
        ap parsed (after-append now r file)
        ∙ parsed-append (older now r file) (line_of dumps now r ∷ [])
        ∙ ap (λ o. parsed (older now r file) ++ consider o []) (round (stamped now r))

    pub latest-record :
        (now : ℕ) (r : Dict Json) (file : File)
        → read_recent_jsonl loads 1 none (append_jsonl dumps no_faults now r file).1
          ≡ ok (dict (stamped now r) ∷ [])
    unfolding slice_last
    latest-record now r file =
        read_recent-contents dumps loads 1 none _
        ∙ ap (λ g. g >>= λ records. ok (slice_last 1 records)) (read_lines-parsed _)
        ∙ ap (λ l. ok (last_n 1 l)) (parsed-after now r file)
        ∙ ap ok (last_n-snoc (parsed (older now r file)) (dict (stamped now r)))

    pub latest-append :
        (now : ℕ) (r : Dict Json) (file : File)
        → Dict.has "ts" r ≡ false
        → latest_ts loads (append_jsonl dumps no_faults now r file).1 ≡ ok (json_num now)
    unfolding latest_ts
    latest-append now r file own =
        ap
          (λ g.
            g >>= λ records. elim (last records) [ none ↦ ok (json_num 0) | some r ↦ item_ts r ])
          (latest-record now r file)
        ∙ item_ts-stamped now r own

    pub find-append :
        (t now : ℕ) (r : Dict Json) (file : File)
        → All (IsStale dumps loads t) (contents file)
        → t < now
        → Dict.has "ts" r ≡ false
        → find_by_ts loads now (append_jsonl dumps no_faults now r file).1
          ≡ ok (some (dict (stamped now r)))
    unfolding find_by_ts first_ts is_ts
    find-append t now r file stale late own =
        ap (λ g. g >>= first_ts now)
          (read_recent-contents dumps loads 1000 none (append_jsonl dumps no_faults now r file).1
            ∙ ap (λ g. g >>= λ records. ok (slice_last 1000 records)) (read_lines-parsed _)
            ∙ ap ok (
                slice_last_all dumps loads 1000 _ (
                  omega (
                    arith,
                    length-parsed-le
                        (last_n 1000 (contents (append_jsonl dumps no_faults now r file).1)),
                    length-last_n-le 1000 (contents (append_jsonl dumps no_faults now r file).1),
                  ))
                ∙ parsed-after now r file))
        ∙ first_ts-past t now _ _ (parsed-IsPast t _ (All-drop _ _ (contents file) stale)) late
        ∙ ap (λ g. g >>= λ v. if is_ts now v then ok (some (dict (stamped now r))) else ok none)
            (ts-stamped now r own)
        ∙ ap (λ b. if b then ok (some (dict (stamped now r))) else ok none) (eqb_same now)
