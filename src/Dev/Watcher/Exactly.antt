-- ===== src/Dev/Watcher/Exactly.antt =====
-- Rounds of appends and polls in turn, for ai-service/app/dev_tools/metrics_ws.py.
use hire_os_be.Prelude.{
  ◌++◌, [], All, ap, arith, Bool, false, is_empty, length, List, map, none, Option, some, String,
  sym, true, ℕ, ◌∙◌, ◌∷◌, ◌≡◌, ◌≤◌,
}
use mathlib.Core.List.{append-nil, append_assoc}
use hire_os_be.Prelude.Dict.{Dict}
use hire_os_be.Prelude.Json.{dict, Json}
use hire_os_be.Dev.MetricsLog.{contents, File}
use hire_os_be.Dev.MetricsLog.Laws.{appends, IsStale}
use hire_os_be.Dev.MetricsLog.Bounds.{IsStale-appends, IsStale-le}
use hire_os_be.Dev.Watcher.{
  created, finished, Message, no_task, poll, running, settle, start, tick, Watcher,
}
use hire_os_be.Dev.Watcher.Poll.{
  agent_of, Append, IsIncreasing, IsIncreasing-newest, llm_of, newest, newest-le, spread,
  spread-append,
}
use hire_os_be.Dev.Watcher.Rounds.{after_round, files, IsFresh, poll-heard}

-- What is appended to the two files between two polls.
abbrev pub Batch : Type 0
Batch = List Append × List Append

-- The messages for the batches, in order.
unfoldable pub messages : List Batch → List Message
messages [] = []
messages ((rs, agents) ∷ more) = (map llm_of rs ++ map agent_of agents) ++ messages more

-- Each batch has at most 200 appends to a file, at increasing times after the cursors.
abbrev pub AreBatches : ℕ → ℕ → List Batch → Type 0
AreBatches t u [] = Unit
AreBatches t u ((rs, agents) ∷ more) =
    IsIncreasing t rs
    × (length rs ≤ 200)
    × IsIncreasing u agents
    × (length agents ≤ 200)
    × AreBatches (newest t rs) (newest u agents) more

module _ (answers : ℕ → ℕ → Bool) (dumps : Json → String) (loads : String → Option Json) where
  -- Appends, and a turn of the watcher, for each batch.
  unfoldable pub run_batches : List Batch → File → File → Watcher → Watcher
  unfolding tick appends
  run_batches [] llm_file agent_file w = w
  run_batches ((rs, agents) ∷ more) llm_file agent_file w =
      run_batches more (appends dumps loads rs llm_file) (appends dumps loads agents agent_file) (
        tick answers loads
          (record {
            metrics = appends dumps loads rs llm_file;
            agent = appends dumps loads agents agent_file;
            snapshot = none;
          })
          w)

  module _ (taken : (ws n : ℕ) → answers ws n ≡ true)
      (round : (d : Dict Json) → loads (dumps (dict d)) ≡ some (dict d)) where
    tick-heard :
        (rs agents : List Append) (llm_file agent_file : File) (w : Watcher)
        → w.task ≡ running
        → is_empty w.connections ≡ false
        → IsFresh answers dumps loads taken round w.last_llm_ts rs llm_file
        → IsFresh answers dumps loads taken round w.last_agent_ts agents agent_file
        → tick answers loads (files answers dumps loads taken round rs agents llm_file agent_file) w
          ≡ after_round answers dumps loads taken round rs agents w
    unfolding tick
    tick-heard rs agents llm_file agent_file w runs some_socket fresh fresh' =
        let d = files answers dumps loads taken round rs agents llm_file agent_file in
        ap
          (λ k. elim k [
            | no_task ↦ w
            | created ↦ settle (start answers loads d w)
            | running ↦ settle (poll answers loads d w)
            | finished ↦ w
          ])
          runs
        ∙ ap settle (
            poll-heard answers dumps loads taken round rs agents llm_file agent_file w some_socket
              fresh fresh')

    kept :
        (t : ℕ) (rs : List Append) (file : File)
        → All (IsStale dumps loads t) (contents file)
        → IsIncreasing t rs
        → All (IsStale dumps loads (newest t rs)) (contents (appends dumps loads rs file))
    kept t rs file stale inc =
        IsStale-appends dumps loads round (newest t rs) rs file
          (IsStale-le dumps loads t (newest t rs) (contents file) (newest-le t rs inc) stale)
          (IsIncreasing-newest t (newest t rs) rs inc (omega arith))

    -- While the watcher runs, some socket is connected and all of them take what they are sent, rounds
    -- of appends to the two files, each of at most 200 appends to a file at increasing times after the
    -- cursors, with a poll after each round, send every socket the message of every append exactly once:
    -- per round those of the gateway's records, without their details, and then those of the agent's, in
    -- order. Nobody writes a snapshot, and `json.loads` reads back what `json.dumps` wrote of a
    -- dictionary.
    pub delivered-run_batches :
        (batches : List Batch) (llm_file agent_file : File) (w : Watcher)
        → w.task ≡ running
        → is_empty w.connections ≡ false
        → All (IsStale dumps loads w.last_llm_ts) (contents llm_file)
        → All (IsStale dumps loads w.last_agent_ts) (contents agent_file)
        → AreBatches w.last_llm_ts w.last_agent_ts batches
        → (run_batches batches llm_file agent_file w).delivered
          ≡ w.delivered ++ spread (messages batches) w.connections
    unfolding run_batches messages spread
    delivered-run_batches [] llm_file agent_file w runs some_socket old old' h =
        sym (append-nil w.delivered)
    delivered-run_batches ((rs, agents) ∷ more) llm_file agent_file w runs some_socket old old' h =
        ap
          (λ v.
            (run_batches more (appends dumps loads rs llm_file)
              (appends dumps loads agents agent_file) v).delivered)
          (tick-heard rs agents llm_file agent_file w runs some_socket (old, h.0, h.1)
            (old', h.2, h.3))
        ∙ delivered-run_batches more _ _ (after_round answers dumps loads taken round rs agents w)
            runs some_socket (kept w.last_llm_ts rs llm_file old h.0)
            (kept w.last_agent_ts agents agent_file old' h.2) h.4
        ∙ append_assoc w.delivered _ _
        ∙ ap (λ l. w.delivered ++ l)
            (sym
              (spread-append (map llm_of rs ++ map agent_of agents) (messages more) w.connections))
