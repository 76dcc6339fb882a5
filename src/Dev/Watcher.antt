-- ===== src/Dev/Watcher.antt =====
-- ai-service/app/dev_tools/metrics_ws.py. A socket is a number, and a broadcast is one step: no other
-- coroutine adds or removes a socket while it runs (in Awaits they do). Whether a socket takes the
-- message of the n-th broadcast is a parameter, and so is `json.loads`.
pub mod Laws
pub mod Poll
pub mod Rounds
pub mod Exactly
pub mod Awaits
use hire_os_be.Prelude.{
  ◌&&◌, ◌*◌, ◌+◌, ◌++◌, ◌-◌, ◌/◌, ◌<◌, ◌==◌, [], All, ap, arith, Bool, Bool-cases, drop, eq_iff,
  eq_refl, eqb, false, get_elem?, if◌then◌else◌, inl, inr, is_empty, last_n, leb, length,
  length-append, length-drop, length-last_n-le, length-map, List, ltb, map, none, not, Option,
  Option-cases, refl, some, String, subst, suc, sym, take, take-append-drop, true, zero, ◌||◌, ℕ,
  ◌↔◌, ◌∙◌, ◌∷◌, ◌≡◌, ◌≢◌, ◌≤◌, ◌⊎◌,
}
use hire_os_be.Prelude.{◌>>=◌, Exc, ok, other, raise, Result}
use hire_os_be.Prelude.Json.{dict, entries, get_field, is_true, Json, json_dict, json_num}
use hire_os_be.Dev.MetricsLog.{
  DevFiles, File, item_ts, last, latest_ts, read_recent_jsonl, read_transcript_snapshot, seconds,
  slim_llm_record,
}

pub data Message : Type 0 where
  llm_message agent_message transcript_message : Json → Message

-- `_watcher_task`: `created` is a task that has not run yet.
pub data Task : Type 0 where
  no_task created running finished : Task

-- The manager's sockets, the task and its local variables, and what was sent so far.
pub record Watcher : Type 0 where
  pub connections : List ℕ
  pub task : Task
  pub last_llm_ts : ℕ
  pub last_agent_ts : ℕ
  pub last_transcript_updated_at : Option ℕ
  pub broadcasts : ℕ
  pub delivered : List (ℕ × Message)

abbrev pub contains : ℕ → List ℕ → Bool
contains ws [] = false
contains ws (x ∷ l) = eqb x ws || contains ws l

-- `set.discard`
unfoldable pub discard : ℕ → List ℕ → List ℕ
discard ws [] = []
discard ws (x ∷ l) = let rest = discard ws l in if eqb x ws then rest else x ∷ rest

unfoldable pub discard_all : List ℕ → List ℕ → List ℕ
unfolding discard
discard_all [] l = l
discard_all (ws ∷ dead) l = discard_all dead (discard ws l)

unfoldable pub add : ℕ → Watcher → Watcher
add ws w = record w {
  connections = if contains ws w.connections then w.connections else w.connections ++ ws ∷ [];
}

unfoldable pub remove : ℕ → Watcher → Watcher
unfolding discard
remove ws w = record w { connections = discard ws w.connections }

unfoldable pub ensure_watcher_started : Watcher → Watcher
ensure_watcher_started w = elim w.task [
  | no_task ↦ record w { task = created }
  | finished ↦ record w { task = created }
  | created ↦ w
  | running ↦ w
]

-- `metrics_websocket_endpoint` up to its receiving loop, and from the disconnect on.
unfoldable pub connect : ℕ → Watcher → Watcher
unfolding add ensure_watcher_started
connect ws w = add ws (ensure_watcher_started w)

unfoldable pub disconnect : ℕ → Watcher → Watcher
unfolding remove
disconnect ws w = remove ws w

-- The outcome of statements of the task, and statements that follow them.
abbrev pub Outcome : Type 0
Outcome = Result (Unit {0}) × Watcher

abbrev pub next : Outcome → (Watcher → Outcome) → Outcome
next (raise e, w) rest = (raise e, w)
next (ok u, w) rest = rest w

-- A result that later statements use.
abbrev pub using {ℓ} : {A : Type ℓ} → Result A → Watcher → (A → Outcome) → Outcome
using (raise e) w rest = (raise e, w)
using (ok a) w rest = rest a

-- `slim_llm_record(record)`, whose `items` only a dictionary has
unfoldable pub slim_value : Json → Result Json
unfolding slim_llm_record
slim_value (json_dict d) = ok (dict (slim_llm_record (entries d)))
slim_value r = raise (other "AttributeError")

-- `snapshot.get("updated_at")`, a number in every snapshot that the program writes
unfoldable pub updated_at : Json → Result (Option ℕ)
unfolding get_field
updated_at s = get_field "updated_at" s >>= λ found. elim found [
  | none ↦ ok none
  | some v ↦ seconds v >>= λ n. ok (some n)
]

abbrev pub same_time : Option ℕ → Option ℕ → Bool
same_time none none = true
same_time none (some b) = false
same_time (some a) none = false
same_time (some a) (some b) = eqb a b

-- An exception ends the task, and nobody is told.
abbrev pub settle : Outcome → Watcher
settle (ok u, w) = w
settle (raise e, w) = record w { task = finished }

module _ (answers : ℕ → ℕ → Bool) where
  -- The sockets that failed, and what was sent.
  unfoldable pub send_all : ℕ → Message → List ℕ → List ℕ × List (ℕ × Message)
  send_all n m [] = ([], [])
  send_all n m (ws ∷ more) =
      let rest = send_all n m more in
      if answers ws n then (rest.0, (ws, m) ∷ rest.1) else (ws ∷ rest.0, rest.1)

  unfoldable pub broadcast : Message → Watcher → Watcher
  unfolding send_all discard_all
  broadcast m w = record w {
    connections = discard_all (send_all w.broadcasts m w.connections).0 w.connections;
    broadcasts = suc w.broadcasts;
    delivered = w.delivered ++ (send_all w.broadcasts m w.connections).1;
  }

  unfoldable pub announce_llm : List Json → Watcher → Outcome
  unfolding broadcast slim_value
  announce_llm [] w = (ok tt, w)
  announce_llm (r ∷ new_llm) w =
      using (slim_value r) w λ slim. announce_llm new_llm (broadcast (llm_message slim) w)

  unfoldable pub announce_agent : List Json → Watcher → Outcome
  unfolding broadcast
  announce_agent [] w = (ok tt, w)
  announce_agent (r ∷ new_agent) w = announce_agent new_agent (broadcast (agent_message r) w)

  module _ (loads : String → Option Json) where
    unfoldable pub push_llm : DevFiles → Watcher → Outcome
    unfolding announce_llm read_recent_jsonl item_ts
    push_llm d w = using (read_recent_jsonl loads 200 (some w.last_llm_ts) d.metrics) w λ new_llm.
        next (announce_llm new_llm w) λ v. elim (last new_llm) [
          | none ↦ (ok tt, v)
          | some r ↦ using (item_ts r >>= seconds) v λ n. (ok tt, record v { last_llm_ts = n })
        ]

    unfoldable pub push_agent : DevFiles → Watcher → Outcome
    unfolding announce_agent read_recent_jsonl item_ts
    push_agent d w =
        using (read_recent_jsonl loads 200 (some w.last_agent_ts) d.agent) w λ new_agent.
          next (announce_agent new_agent w) λ v. elim (last new_agent) [
            | none ↦ (ok tt, v)
            | some r ↦ using (item_ts r >>= seconds) v λ n. (ok tt, record v { last_agent_ts = n })
          ]

    unfoldable pub push_transcript : DevFiles → Watcher → Outcome
    unfolding broadcast read_transcript_snapshot updated_at is_true
    push_transcript d w = elim (read_transcript_snapshot loads d.snapshot) [
      | none ↦ (ok tt, w)
      | some s ↦
          if is_true s
          then (using (updated_at s) w λ t.
              if same_time t w.last_transcript_updated_at then (ok tt, w) else (
                ok tt,
                broadcast (transcript_message s) (record w { last_transcript_updated_at = t }),
              ))
          else (ok tt, w)
    ]

    -- One round of the loop, after its sleep.
    unfoldable pub poll : DevFiles → Watcher → Outcome
    unfolding push_llm push_agent push_transcript
    poll d w =
        if is_empty w.connections
        then (ok tt, w)
        else next (next (push_llm d w) (push_agent d)) (push_transcript d)

    -- The first statements of the task, which read the cursors.
    unfoldable pub start : DevFiles → Watcher → Outcome
    unfolding latest_ts
    start d w = using (latest_ts loads d.metrics >>= seconds) w λ llm.
        using (latest_ts loads d.agent >>= seconds) w λ agent. (
          ok tt,
          record w {
            task = running;
            last_llm_ts = llm;
            last_agent_ts = agent;
            last_transcript_updated_at = none;
          },
        )

    -- What the task does when it is its turn.
    unfoldable pub tick : DevFiles → Watcher → Watcher
    unfolding poll start
    tick d w = elim w.task [
      | no_task ↦ w
      | created ↦ settle (start d w)
      | running ↦ settle (poll d w)
      | finished ↦ w
    ]
