-- ===== src/Dev/Dashboard/Laws.antt =====
-- What the endpoints of ai-service/app/dev_tools/metrics_dashboard.py show of a record that
-- ai-service/app/model_gateway/metrics_log.py appended.
use hire_os_be.Prelude.{
  ◌<◌, ◌==◌, [], All, ap, arith, eq_iff, false, if◌then◌else◌, is_empty, none, not, Option, refl,
  some, String, true, ℕ, ◌∙◌, ◌∷◌, ◌≡◌,
}
use hire_os_be.Prelude.{◌>>=◌, ok}
use hire_os_be.Prelude.Dict
use hire_os_be.Prelude.Dict.{Dict, get-has, get-none, get-put, get-remove}
use hire_os_be.Prelude.Json.{
  dict, entries-fields, get_field, get_field-dict, is_true, Json, json_bool, json_num,
}
use hire_os_be.Gateway.Metrics.{is_dev_metrics_enabled}
use hire_os_be.Dev.MetricsLog.{
  append_metric, contents, DevFiles, no_faults, slim_llm_record, stamped,
}
use hire_os_be.Dev.MetricsLog.Laws.{IsStale}
use hire_os_be.Dev.MetricsLog.Lookup.{find-append}
use hire_os_be.Dev.Dashboard.{data_detail}

-- A dictionary has a key once.
abbrev pub IsNodup : Dict Json → Type 0
IsNodup [] = Unit
IsNodup ((k, v) ∷ d) = (Dict.has k d ≡ false) × IsNodup d

abbrev first_of : Option Json → Option Json → Option Json
first_of none b = b
first_of (some v) b = some v

get-update :
    (k : String) (r d : Dict Json)
    → IsNodup r
    → Dict.get k (Dict.update r d) ≡ first_of (Dict.get k r) (Dict.get k d)
unfolding Dict.update Dict.get
get-update k [] d h = refl
get-update k ((j, v) ∷ r) d h =
    get-update k r (Dict.put j v d) h.1
    ∙ rw (get-put j k v d) (ground (arith, eq_iff j k, get-none j r, h.0))

is_empty-put : (k : String) (v : Json) (d : Dict Json) → is_empty (Dict.put k v d) ≡ false
unfolding Dict.put
is_empty-put k v [] = refl
is_empty-put k v ((j, w) ∷ d) = ground arith

is_empty-update : (r d : Dict Json) → is_empty d ≡ false → is_empty (Dict.update r d) ≡ false
unfolding Dict.update
is_empty-update [] d h = h
is_empty-update ((k, v) ∷ r) d h = is_empty-update r (Dict.put k v d) (is_empty-put k v d)

is_true-stamped : (now : ℕ) (r : Dict Json) → is_true (dict (stamped now r)) ≡ true
unfolding is_true stamped
is_true-stamped now r =
    ap (λ e. not (is_empty e)) (entries-fields (stamped now r))
    ∙ ap not (is_empty-update r (("ts", json_num now) ∷ []) refl)

get-stamped_detail :
    (now : ℕ) (r : Dict Json)
    → IsNodup r
    → Dict.get "context_detail" (stamped now r) ≡ Dict.get "context_detail" r
unfolding stamped Dict.get
get-stamped_detail now r h =
    get-update "context_detail" r _ h ∙ first_none (Dict.get "context_detail" r)
  where
    first_none : (o : Option Json) → first_of o none ≡ o
    first_none none = refl
    first_none (some v) = refl

-- The fields of a row of the table.
get-slim_llm_record :
    (k : String) (r : Dict Json)
    → Dict.get k (slim_llm_record r) ≡ (
        if "has_detail" == k
        then some
            (json_bool (elim (Dict.get "context_detail" r) [ none ↦ false | some v ↦ is_true v ]))
        else if "context_detail" == k
        then none
        else Dict.get k r)
unfolding slim_llm_record
get-slim_llm_record k r =
    get-put "has_detail" k _ (Dict.remove "context_detail" r)
    ∙ rw (get-remove "context_detail" k r) refl

module _ (dumps : Json → String) (loads : String → Option Json) where
  -- With the development metrics enabled, a record that names no time and is appended later than every
  -- record of the file is found by its time, and the detail endpoint answers its `context_detail`.
  -- `json.loads` reads back what `json.dumps` wrote of a dictionary.
  pub data_detail-append_metric :
      ((d : Dict Json) → loads (dumps (dict d)) ≡ some (dict d))
      → (env : String → Option String) (t now : ℕ) (r : Dict Json) (d : DevFiles)
      → is_dev_metrics_enabled env ≡ true
      → All (IsStale dumps loads t) (contents d.metrics)
      → t < now
      → Dict.has "ts" r ≡ false
      → IsNodup r
      → data_detail loads now (append_metric dumps env no_faults now r d).1
        ≡ ok (Dict.get "context_detail" r)
  unfolding data_detail append_metric
  data_detail-append_metric round env t now r d enabled stale late own once = rw enabled (
      ap
        (λ g. g >>= λ found. elim found [
          | none ↦ ok none
          | some r ↦ if is_true r then get_field "context_detail" r else ok none
        ])
        (find-append dumps loads round t now r d.metrics stale late own)
      ∙ rw (is_true-stamped now r)
          (get_field-dict "context_detail" (stamped now r) ∙ ap ok (get-stamped_detail now r once)))
