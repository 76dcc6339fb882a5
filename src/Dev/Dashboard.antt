-- ===== src/Dev/Dashboard.antt =====
-- The data endpoints of ai-service/app/dev_tools/metrics_dashboard.py.
pub mod Laws
use hire_os_be.Prelude.{
  ◌&&◌, ◌*◌, ◌+◌, ◌++◌, ◌-◌, ◌/◌, ◌<◌, ◌==◌, [], All, ap, arith, Bool, Bool-cases, drop, eq_iff,
  eq_refl, eqb, false, get_elem?, if◌then◌else◌, inl, inr, is_empty, last_n, leb, length,
  length-append, length-drop, length-last_n-le, length-map, List, ltb, map, none, not, Option,
  Option-cases, refl, some, String, subst, suc, sym, take, take-append-drop, true, zero, ◌||◌, ℕ,
  ◌↔◌, ◌∙◌, ◌∷◌, ◌≡◌, ◌≢◌, ◌≤◌, ◌⊎◌,
}
use hire_os_be.Prelude.{◌>>=◌, Exc, ok, other, raise, Result}
use hire_os_be.Prelude.Json.{get_field, is_true, Json}
use hire_os_be.Dev.MetricsLog.{DevFiles, find_by_ts, read_recent_jsonl, read_transcript_snapshot}
use hire_os_be.Dev.Watcher.{slim_value}

-- `after_ts or None`
abbrev pub after_or_none : ℕ → Option ℕ
after_or_none after_ts = if eqb after_ts 0 then none else some after_ts

unfoldable pub slim_all : List Json → Result (List Json)
unfolding slim_value
slim_all [] = ok []
slim_all (r ∷ records) =
    let rest = slim_all records in slim_value r >>= λ s. rest >>= λ l. ok (s ∷ l)

module _ (loads : String → Option Json) where
  unfoldable pub data_rows : ℕ → DevFiles → Result (List Json)
  unfolding read_recent_jsonl slim_all
  data_rows after_ts d = read_recent_jsonl loads 200 (after_or_none after_ts) d.metrics >>= slim_all

  unfoldable pub data_detail : ℕ → DevFiles → Result (Option Json)
  unfolding find_by_ts get_field is_true
  data_detail ts d = find_by_ts loads ts d.metrics >>= λ found. elim found [
    | none ↦ ok none
    | some r ↦ if is_true r then get_field "context_detail" r else ok none
  ]

  unfoldable pub agent_data : ℕ → DevFiles → Result (List Json)
  unfolding read_recent_jsonl
  agent_data after_ts d = read_recent_jsonl loads 200 (after_or_none after_ts) d.agent

  unfoldable pub transcript : DevFiles → Option Json
  unfolding read_transcript_snapshot
  transcript d = read_transcript_snapshot loads d.snapshot
