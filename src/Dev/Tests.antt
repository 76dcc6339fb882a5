-- ===== src/Dev/Tests.antt =====
-- The development tools at concrete inputs.
use hire_os_be.Prelude.{
  ◌&&◌, ◌*◌, ◌+◌, ◌++◌, ◌-◌, ◌/◌, ◌<◌, ◌==◌, [], All, ap, arith, Bool, Bool-cases, drop, eq_iff,
  eq_refl, eqb, false, get_elem?, if◌then◌else◌, inl, inr, is_empty, last_n, leb, length,
  length-append, length-drop, length-last_n-le, length-map, List, ltb, map, none, not, Option,
  Option-cases, refl, some, String, subst, suc, sym, take, take-append-drop, true, zero, ◌||◌, ℕ,
  ◌↔◌, ◌∙◌, ◌∷◌, ◌≡◌, ◌≢◌, ◌≤◌, ◌⊎◌,
}
use hire_os_be.Prelude.{ok, Result}
use hire_os_be.Prelude.Dict
use hire_os_be.Prelude.Dict.{Dict}
use hire_os_be.Prelude.Json.{dict, Json, json_num, json_text}
use hire_os_be.Dev.Codec.{dumps, loads, loads-dumps}
use hire_os_be.Dev.MetricsLog.{
  append_jsonl, append_metric, contents, DevFiles, File, find_by_ts, latest_ts, line_of, no_faults,
  read_recent_jsonl, size, slice_last, slim_llm_record,
}
use hire_os_be.Dev.MetricsLog.Laws.{appends, read-appends, record_of}
use hire_os_be.Dev.MetricsLog.Bounds.{length-append_jsonl-le}
use hire_os_be.Dev.Watcher.{running, Watcher}
use hire_os_be.Dev.Watcher.Poll.{Append, spread}
use hire_os_be.Dev.Watcher.Exactly.{Batch, delivered-run_batches, messages, run_batches}
use hire_os_be.Dev.Dashboard.{data_detail}
use hire_os_be.Dev.Dashboard.Laws.{data_detail-append_metric}
use hire_os_be.Gateway.Metrics.{is_dev_metrics_enabled, Metric, metric, Prompts}
use hire_os_be.Gateway.Provider.{groq}
use hire_os_be.Dev.Trace.{data_detail-metric, metric_record}
use hire_os_be.Dev.Watcher.{finished, settle, transcript_message}
use hire_os_be.Dev.Watcher.Awaits.{
  broadcast_awaiting, broadcast_awaiting-raises, Change, joins, size_changed,
}

round : (d : Dict Json) → loads (dumps (dict d)) ≡ some (dict d)
round d = loads-dumps (dict d)

abbrev early : Dict Json
early = ("use_case", json_text "a") ∷ []

abbrev turn_one : Dict Json
turn_one = ("latency", json_num 2) ∷ ("context_detail", json_text "window") ∷ []

abbrev turn_two : Dict Json
turn_two = ("latency", json_num 3) ∷ []

-- A line that does not parse, and a record of the time 10.
abbrev log_file : File
log_file = some ("x" ∷ line_of dumps 10 early ∷ [])

abbrev two_turns : List Append
two_turns = (11, turn_one) ∷ (12, turn_two) ∷ []

-- A limit of 0 is no limit.
slice_last-test : slice_last {A = String} 0 ("a" ∷ "b" ∷ []) ≡ "a" ∷ "b" ∷ []
unfolding slice_last
slice_last-test = refl

read-appends_example :
    read_recent_jsonl loads 200 (some 10) (appends dumps loads two_turns log_file)
    ≡ ok (map record_of two_turns)
unfolding line_of loads dumps hire_os_be.Prelude.Json.fields hire_os_be.Dev.MetricsLog.skipped
    Dict.has
read-appends_example =
    read-appends dumps loads round 10 200 two_turns log_file (tt, (refl, tt))
      ((omega arith, refl), ((omega arith, refl), tt)) (omega arith) (omega arith)

length-append_jsonl-le_example :
    (length (contents (append_jsonl dumps no_faults 11 turn_one log_file).1)
      ≤ suc (length (contents log_file)))
    × ((size (contents log_file) ≤ 2000000)
        ⊎ (length (contents (append_jsonl dumps no_faults 11 turn_one log_file).1) ≤ 1001))
length-append_jsonl-le_example = length-append_jsonl-le dumps 11 turn_one log_file

abbrev enabled : String → Option String
enabled name = if name == "DEV_METRICS_ENABLED" then some " True" else none

abbrev dev_files : DevFiles
dev_files = record { metrics = log_file; agent = none; snapshot = none }

data_detail-append_metric-test :
    data_detail loads 11 (append_metric dumps enabled no_faults 11 turn_one dev_files).1
    ≡ ok (Dict.get "context_detail" turn_one)
unfolding hire_os_be.Gateway.Metrics.is_dev_metrics_enabled loads line_of dumps
    hire_os_be.Prelude.Json.fields hire_os_be.Dev.MetricsLog.skipped Dict.has
data_detail-append_metric-test =
    data_detail-append_metric dumps loads round enabled 10 11 turn_one dev_files refl
      (tt, (refl, tt)) (omega arith) refl (refl, (refl, tt))

abbrev prompts : Prompts
prompts = record {
  use_case = "voice_interview_turn";
  system_prompt = "sys";
  user_prompt = "user";
  context_detail = some (("window_lines", json_num 6) ∷ []);
}

abbrev turn_metric : Metric
turn_metric =
    metric (is_dev_metrics_enabled enabled) prompts groq (some "m") "Hi" 7 (some 3) false false none
      2

data_detail-metric_example :
    (ctx : Dict Json) × (data_detail loads 11
        (append_metric dumps enabled no_faults 11 (metric_record turn_metric) dev_files).1
      ≡ ok (some (dict ctx)))
    × (Dict.get "user_prompt" ctx ≡ some (json_text "user"))
unfolding is_dev_metrics_enabled loads line_of dumps hire_os_be.Prelude.Json.fields
    hire_os_be.Dev.MetricsLog.skipped Dict.has
data_detail-metric_example =
    data_detail-metric dumps loads round enabled 10 11 dev_files prompts groq (some "m") "Hi" 7
      (some 3) false false none 2 "user_prompt" refl (tt, (refl, tt)) (omega arith)

abbrev watcher : Watcher
watcher = record {
  connections = 1 ∷ 2 ∷ [];
  task = running;
  last_llm_ts = 10;
  last_agent_ts = 0;
  last_transcript_updated_at = none;
  broadcasts = 0;
  delivered = [];
}

abbrev batches : List Batch
batches = (two_turns, []) ∷ ((13, turn_one) ∷ [], (5, early) ∷ []) ∷ []

delivered-run_batches_example :
    (run_batches (λ ws n. true) dumps loads batches log_file none watcher).delivered
    ≡ [] ++ spread (messages batches) (1 ∷ 2 ∷ [])
unfolding loads line_of dumps hire_os_be.Prelude.Json.fields hire_os_be.Dev.MetricsLog.skipped
    Dict.has hire_os_be.Dev.Watcher.Poll.newest
delivered-run_batches_example =
    delivered-run_batches (λ ws n. true) dumps loads (λ ws n. refl) round batches log_file none
      watcher refl refl (tt, (refl, tt)) tt
      (
        (omega arith, refl, (omega arith, refl, tt)),
        omega arith,
        tt,
        omega arith,
        ((omega arith, refl, tt), omega arith, (omega arith, refl, tt), omega arith, tt),
      )

-- The third socket connects while the second one is sent to.
abbrev joining : ℕ → Option Change
joining zero = none
joining (suc k) = if eqb k 0 then some (joins 3) else none

broadcast_awaiting-raises_example :
    let after =
      broadcast_awaiting (λ ws n. true) joining (transcript_message (json_num 1)) watcher in
    (after.0 ≡ size_changed) × ((settle after).task ≡ finished)
broadcast_awaiting-raises_example =
    broadcast_awaiting-raises (λ ws n. true) joining (transcript_message (json_num 1)) watcher 1 3
      (omega arith) quiet refl refl
  where
    quiet : (j : ℕ) → j < 1 → joining j ≡ none
    quiet zero h = refl
    quiet (suc j) h = absurd (omega arith)
