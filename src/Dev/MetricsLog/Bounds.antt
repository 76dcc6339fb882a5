-- ===== src/Dev/MetricsLog/Bounds.antt =====
-- The size of a file of ai-service/app/model_gateway/metrics_log.py, and the times of its records.
use hire_os_be.Prelude.{
  ◌++◌, ◌-◌, [], All, ap, arith, Bool-cases, false, inl, inr, last_n, leb, length, length-append,
  length-drop, List, ltb, none, Option, some, String, subst, suc, sym, true, ℕ, ◌∙◌, ◌∷◌, ◌≡◌, ◌≤◌,
  ◌⊎◌,
}
use hire_os_be.Prelude.{◌>>=◌, All-drop, ok}
use hire_os_be.Prelude.Dict
use hire_os_be.Prelude.Dict.{Dict}
use hire_os_be.Prelude.Json.{dict, Json}
use hire_os_be.Dev.MetricsLog.{
  append_jsonl, appended, contents, File, line_of, no_faults, seconds, size, skipped, stamped,
  written,
}
use hire_os_be.Dev.MetricsLog.Laws.{appends, get_ts-stamped, IsOld, IsStale}
use hire_os_be.Dev.MetricsLog.Lookup.{IsPast-le}

All-append {ℓ κ} :
    {A : Type ℓ} (P : A → Type κ) (xs ys : List A) → All P xs → All P ys → All P (xs ++ ys)
All-append P [] ys h k = k
All-append P (x ∷ xs) ys h k = (h.0, All-append P xs ys h.1 k)

small_le : (n : ℕ) → ltb 2000000 n ≡ false → n ≤ 2000000
small_le n e = ground arith

length-tail_le {ℓ} :
    {A : Type ℓ} (n : ℕ) (xs : List A) (x : A)
    → (length (last_n n xs ++ x ∷ []) ≤ suc (length xs)) × (length (last_n n xs ++ x ∷ []) ≤ suc n)
length-tail_le n xs x =
    let e = length-append (last_n n xs) (x ∷ []) in
    let d = length-drop (length xs - n) xs in (omega (arith, e, d), omega (arith, e, d))

leb_le : (a b : ℕ) → a ≤ b → leb a b ≡ true
leb_le a b h = ground arith

module _ (dumps : Json → String) where
  -- An append that nothing refuses makes the file at most one line longer, and the file had at most
  -- two million bytes before it or has at most 1001 lines after it.
  pub length-append_jsonl-le :
      (now : ℕ) (r : Dict Json) (file : File)
      → (length (contents (append_jsonl dumps no_faults now r file).1)
          ≤ suc (length (contents file)))
        × ((size (contents file) ≤ 2000000)
            ⊎ (length (contents (append_jsonl dumps no_faults now r file).1) ≤ 1001))
  unfolding append_jsonl written appended
  length-append_jsonl-le now r file = elim (Bool-cases (ltb 2000000 (size (contents file)))) [
    | inl e ↦
        let (a, b) = length-tail_le 1000 (contents file) (line_of dumps now r) in rw e (a, inr b)
    | inr e ↦ rw e (
      omega (arith, length-append (contents file) (line_of dumps now r ∷ [])),
      inl (small_le (size (contents file)) e),
    )
  ]

module _ (dumps : Json → String) (loads : String → Option Json) where
  pub IsStale-le :
      (t u : ℕ) (lines : List String)
      → t ≤ u
      → All (IsStale dumps loads t) lines
      → All (IsStale dumps loads u) lines
  IsStale-le t u [] h k = tt
  IsStale-le t u (x ∷ xs) h k = (old (loads x) k.0, IsStale-le t u xs h k.1)
    where
      old : (o : Option Json) → IsOld t o → IsOld u o
      old none p = tt
      old (some r) p = IsPast-le t u r h p

  module _ (round : (d : Dict Json) → loads (dumps (dict d)) ≡ some (dict d)) where
    IsStale-line :
        (t now : ℕ) (r : Dict Json)
        → now ≤ t
        → Dict.has "ts" r ≡ false
        → IsStale dumps loads t (line_of dumps now r)
    unfolding line_of skipped
    IsStale-line t now r le own = subst (IsOld t) (sym (round (stamped now r))) (
        ap (λ g. g >>= λ v. seconds v >>= λ n. ok (leb n t)) (get_ts-stamped now r own)
        ∙ ap ok (leb_le now t le))

    IsStale-append :
        (t now : ℕ) (r : Dict Json) (file : File)
        → All (IsStale dumps loads t) (contents file)
        → now ≤ t
        → Dict.has "ts" r ≡ false
        → All (IsStale dumps loads t) (contents (append_jsonl dumps no_faults now r file).1)
    unfolding append_jsonl written appended
    IsStale-append t now r file stale le own =
        elim (Bool-cases (ltb 2000000 (size (contents file)))) [
          | inl e ↦ rw e (
              All-append (IsStale dumps loads t) (last_n 1000 (contents file))
                (line_of dumps now r ∷ [])
                (All-drop (IsStale dumps loads t) (length (contents file) - 1000) (contents file)
                  stale)
                (IsStale-line t now r le own, tt))
          | inr e ↦ rw e (
              All-append (IsStale dumps loads t) (contents file) (line_of dumps now r ∷ []) stale
                (IsStale-line t now r le own, tt))
        ]

    -- Appends up to the time u leave a file whose records are all at most u.
    pub IsStale-appends :
        (u : ℕ) (rs : List (ℕ × Dict Json)) (file : File)
        → All (IsStale dumps loads u) (contents file)
        → All (λ a. (a.0 ≤ u) × (Dict.has "ts" a.1 ≡ false)) rs
        → All (IsStale dumps loads u) (contents (appends dumps loads rs file))
    unfolding appends
    IsStale-appends u [] file stale h = stale
    IsStale-appends u ((now, r) ∷ more) file stale h =
        IsStale-appends u more _ (IsStale-append u now r file stale h.0.0 h.0.1) h.1
