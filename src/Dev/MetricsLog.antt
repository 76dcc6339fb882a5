-- ===== src/Dev/MetricsLog.antt =====
-- ai-service/app/model_gateway/metrics_log.py. A file is absent or the list of its lines, each of
-- which ends in a newline: `json.dumps` escapes newlines and non-ASCII characters, so a record is one
-- line, and its bytes are its characters. `json.dumps` and `json.loads` are parameters.
pub mod Laws
pub mod Lookup
pub mod Bounds
use hire_os_be.Prelude.{
  ◌&&◌, ◌*◌, ◌+◌, ◌++◌, ◌-◌, ◌/◌, ◌<◌, ◌==◌, [], All, ap, arith, Bool, Bool-cases, drop, eq_iff,
  eq_refl, eqb, false, get_elem?, if◌then◌else◌, inl, inr, is_empty, last_n, leb, length,
  length-append, length-drop, length-last_n-le, length-map, List, ltb, map, none, not, Option,
  Option-cases, refl, some, String, subst, suc, sym, take, take-append-drop, true, zero, ◌||◌, ℕ,
  ◌↔◌, ◌∙◌, ◌∷◌, ◌≡◌, ◌≢◌, ◌≤◌, ◌⊎◌,
}
use hire_os_be.Prelude.{◌>>=◌, Exc, key_error, ok, other, raise, Result, str_len, truthy}
use hire_os_be.Prelude.Dict
use hire_os_be.Prelude.Dict.{Dict}
use hire_os_be.Prelude.Json.{
  dict, get_field, is_true, items, Json, json_bool, json_list, json_num, json_text,
}
use hire_os_be.Gateway.Metrics.{is_dev_metrics_enabled}

abbrev pub File : Type 0
File = Option (List String)

-- `path.read_text().splitlines()` of a file, and no line where it is absent.
abbrev pub contents : File → List String
contents none = []
contents (some lines) = lines

-- What the operating system refuses in one append: making the directory, rewriting the file, and
-- appending to it, the last two with what they leave on the disk.
pub record Faults : Type 0 where
  pub mkdir : Option Exc
  pub rewrite : Option File
  pub write : Option File

abbrev pub no_faults : Faults
no_faults = record { mkdir = none; rewrite = none; write = none }

-- `path.stat().st_size`
unfoldable pub size : List String → ℕ
size [] = 0
size (l ∷ lines) = str_len l + 1 + size lines

unfoldable pub appended : Faults → String → List String → File
appended f line lines = elim f.write [ none ↦ some (lines ++ line ∷ []) | some left ↦ left ]

unfoldable pub written : Faults → String → File → File
unfolding size appended
written f line file =
    if ltb 2000000 (size (contents file))
    then elim f.rewrite [ none ↦ appended f line (last_n 1000 (contents file)) | some left ↦ left ]
    else appended f line (contents file)

-- `{"ts": time.time(), **record}`
unfoldable pub stamped : ℕ → Dict Json → Dict Json
unfolding Dict.update
stamped now r = Dict.update r (("ts", json_num now) ∷ [])

-- A number, which a boolean is too. The order of anything else with a number is a TypeError.
abbrev pub seconds : Json → Result ℕ
seconds (json_num n) = ok n
seconds (json_bool b) = ok (if b then 1 else 0)
seconds j = raise (other "TypeError")

-- `record.get("ts", 0)`
unfoldable pub get_ts : Json → Result Json
unfolding get_field
get_ts r = get_field "ts" r >>= λ found. ok (elim found [ none ↦ json_num 0 | some v ↦ v ])

-- `after_ts is not None and record.get("ts", 0) <= after_ts`
unfoldable pub skipped : Option ℕ → Json → Result Bool
unfolding get_ts
skipped none r = ok false
skipped (some after_ts) r = get_ts r >>= λ v. seconds v >>= λ n. ok (leb n after_ts)

-- `records[-limit:]`, which is the whole list for the limit 0.
unfoldable pub slice_last {ℓ} : {A : Type ℓ} → ℕ → List A → List A
slice_last limit records = if eqb limit 0 then records else last_n limit records

abbrev pub last {ℓ} : {A : Type ℓ} → List A → Option A
last [] = none
last (a ∷ l) = elim l [ [] ↦ some a | _ ∷ _ ↦ last l ]

-- `value["ts"]`
unfoldable pub item_ts : Json → Result Json
unfolding get_field
item_ts r = elim (get_field "ts" r) [
  | raise e ↦ raise (other "TypeError")
  | ok found ↦ elim found [ none ↦ raise (key_error "ts") | some v ↦ ok v ]
]

-- The first record whose `ts` is the number.
unfoldable pub is_ts : ℕ → Option Json → Bool
is_ts ts none = false
is_ts ts (some v) = elim (seconds v) [ ok n ↦ eqb n ts | raise e ↦ false ]

unfoldable pub first_ts : ℕ → List Json → Result (Option Json)
unfolding get_field is_ts
first_ts ts [] = ok none
first_ts ts (r ∷ records) =
    let rest = first_ts ts records in
    get_field "ts" r >>= λ v. if is_ts ts v then ok (some r) else rest

-- The three files of the directory `.dev`.
pub record DevFiles : Type 0 where
  pub metrics : File
  pub agent : File
  pub snapshot : Option String

-- The files that cannot be unlinked keep what they have.
unfoldable pub reset_dev_metrics : Bool → Bool → Bool → DevFiles → DevFiles
reset_dev_metrics keep_metrics keep_agent keep_snapshot d = record {
  metrics = if keep_metrics then d.metrics else none;
  agent = if keep_agent then d.agent else none;
  snapshot = if keep_snapshot then d.snapshot else none;
}

-- `{k: v for k, v in record.items() if k != "context_detail"}` with `has_detail`
unfoldable pub slim_llm_record : Dict Json → Dict Json
unfolding Dict.remove Dict.put Dict.get is_true
slim_llm_record r =
    Dict.put "has_detail"
      (json_bool (elim (Dict.get "context_detail" r) [ none ↦ false | some v ↦ is_true v ]))
      (Dict.remove "context_detail" r)

unfoldable pub snapshot_payload : String → List String → ℕ → Dict Json
unfolding items
snapshot_payload session_label lines now =
    ("session", json_text session_label)
    ∷ ("lines", json_list (items (map json_text lines)))
    ∷ ("updated_at", json_num now)
    ∷ []

-- The line that an append writes.
unfoldable pub line_of : (Json → String) → ℕ → Dict Json → String
unfolding stamped
line_of dumps now r = dumps (dict (stamped now r))

module _ (dumps : Json → String) where
  unfoldable pub append_jsonl : Faults → ℕ → Dict Json → File → Result (Unit {0}) × File
  unfolding written line_of
  append_jsonl f now r file = elim f.mkdir [
    | some e ↦ (raise e, file)
    | none ↦ (ok tt, written f (line_of dumps now r) file)
  ]

  unfoldable pub append_metric :
      (String → Option String) → Faults → ℕ → Dict Json → DevFiles → Result (Unit {0}) × DevFiles
  unfolding is_dev_metrics_enabled append_jsonl
  append_metric env f now r d =
      if is_dev_metrics_enabled env
      then (
        (append_jsonl f now r d.metrics).0,
        record d { metrics = (append_jsonl f now r d.metrics).1 },
      )
      else (ok tt, d)

  unfoldable pub append_agent_metric :
      Faults → ℕ → Dict Json → DevFiles → Result (Unit {0}) × DevFiles
  unfolding append_jsonl
  append_agent_metric f now r d =
      ((append_jsonl f now r d.agent).0, record d { agent = (append_jsonl f now r d.agent).1 })

  -- A refused write leaves what the third argument says.
  unfoldable pub write_transcript_snapshot :
      Option Exc
      → Option (Option String)
      → String
      → List String
      → ℕ
      → DevFiles
      → Result (Unit {0}) × DevFiles
  unfolding snapshot_payload
  write_transcript_snapshot mkdir refused session_label lines now d = elim mkdir [
    | some e ↦ (raise e, d)
    | none ↦ (
      ok tt,
      record d {
        snapshot = elim refused [
          | none ↦ some (dumps (dict (snapshot_payload session_label lines now)))
          | some left ↦ left
        ];
      },
    )
  ]

module _ (loads : String → Option Json) where
  unfoldable pub read_lines : Option ℕ → List String → Result (List Json)
  unfolding skipped
  read_lines after_ts [] = ok []
  read_lines after_ts (line ∷ lines) =
      let rest = read_lines after_ts lines in
      elim (loads line) [
        | none ↦ rest
        | some r ↦ skipped after_ts r >>= λ skip.
            rest >>= λ records. ok (if skip then records else r ∷ records)
      ]

  unfoldable pub read_recent_jsonl : ℕ → Option ℕ → File → Result (List Json)
  unfolding read_lines slice_last
  read_recent_jsonl limit after_ts none = ok []
  read_recent_jsonl limit after_ts (some lines) =
      read_lines after_ts (last_n 1000 lines) >>= λ records. ok (slice_last limit records)

  unfoldable pub find_by_ts : ℕ → File → Result (Option Json)
  unfolding read_recent_jsonl first_ts
  find_by_ts ts file = read_recent_jsonl 1000 none file >>= first_ts ts

  unfoldable pub latest_ts : File → Result Json
  unfolding read_recent_jsonl item_ts
  latest_ts file = read_recent_jsonl 1 none file >>= λ records. elim (last records) [
    | none ↦ ok (json_num 0)
    | some r ↦ item_ts r
  ]

  unfoldable pub read_transcript_snapshot : Option String → Option Json
  read_transcript_snapshot none = none
  read_transcript_snapshot (some s) = loads s
