-- ===== src/Dev/Watcher/Rounds.antt =====
-- What the sockets of ai-service/app/dev_tools/metrics_ws.py get over any number of rounds.
use hire_os_be.Prelude.{
  ◌++◌, [], All, ap, arith, Bool, false, is_empty, length, List, map, none, Option, refl, some,
  String, sym, true, ℕ, ◌∙◌, ◌∷◌, ◌≡◌, ◌≤◌,
}
use hire_os_be.Prelude.{◌>>=◌, ok}
use hire_os_be.Prelude.Dict.{Dict}
use hire_os_be.Prelude.Json.{dict, Json}
use hire_os_be.Dev.MetricsLog.{contents, DevFiles, File, item_ts, last, read_recent_jsonl, seconds}
use hire_os_be.Dev.MetricsLog.Laws.{appends, IsStale, item_ts-stamped, read-appends, record_of}
use hire_os_be.Dev.Watcher.{
  announce_agent, announce_llm, next, Outcome, poll, push_agent, push_llm, push_transcript, using,
  Watcher,
}
use hire_os_be.Dev.Watcher.Poll.{
  agent_of, announce_agent-heard, announce_llm-heard, Append, heard, heard-heard, IsIncreasing,
  IsIncreasing-IsNew, llm_of, newest,
}

-- The cursor after a round: the time of the last record.
module _ (v : Watcher) (set : ℕ → Watcher) where
  abbrev advance : Option Json → Outcome
  advance none = (ok tt, v)
  advance (some r) = using (item_ts r >>= seconds) v λ n. (ok tt, set n)

  advance-cons :
      (now : ℕ) (r : Dict Json) (more : List Append) (t : ℕ)
      → IsIncreasing t ((now, r) ∷ more)
      → advance (last (map record_of ((now, r) ∷ more))) ≡ (ok tt, set (newest now more))
  unfolding newest
  advance-cons now r [] t h =
      ap (λ g. using (g >>= seconds) v λ n. (ok tt, set n)) (item_ts-stamped now r h.1)
  advance-cons now r ((now', r') ∷ more) t h = advance-cons now' r' more now h.2

  advance-newest :
      (t : ℕ) (rs : List Append)
      → IsIncreasing t rs
      → set t ≡ v
      → advance (last (map record_of rs)) ≡ (ok tt, set (newest t rs))
  unfolding newest
  advance-newest t [] h e = ap (λ u. (ok tt, u)) (sym e)
  advance-newest t ((now, r) ∷ more) h e = advance-cons now r more t h

module _ (answers : ℕ → ℕ → Bool) (dumps : Json → String) (loads : String → Option Json) where
  module _ (taken : (ws n : ℕ) → answers ws n ≡ true)
      (round : (d : Dict Json) → loads (dumps (dict d)) ≡ some (dict d)) where
    -- The appends to one file since the last round.
    abbrev pub IsFresh : ℕ → List Append → File → Type 0
    IsFresh t rs file =
        All (IsStale dumps loads t) (contents file) × IsIncreasing t rs × (length rs ≤ 200)

    read-fresh :
        (t : ℕ) (rs : List Append) (file : File)
        → IsFresh t rs file
        → read_recent_jsonl loads 200 (some t) (appends dumps loads rs file) ≡ ok (map record_of rs)
    read-fresh t rs file (stale, inc, few) =
        read-appends dumps loads round t 200 rs file stale
          (IsIncreasing-IsNew t t rs (omega arith) inc) few (omega (arith, few))

    push_llm-heard :
        (rs : List Append) (d : DevFiles) (file : File) (w : Watcher)
        → IsFresh w.last_llm_ts rs file
        → d.metrics ≡ appends dumps loads rs file
        → push_llm answers loads d w
          ≡ (ok tt, record (heard (map llm_of rs) w) { last_llm_ts = newest w.last_llm_ts rs })
    unfolding push_llm
    push_llm-heard rs d file w fresh e =
        ap
          (λ g. using g w λ new_llm.
            next (announce_llm answers new_llm w)
              λ v. advance v (λ n. record v { last_llm_ts = n }) (last new_llm))
          (ap (read_recent_jsonl loads 200 (some w.last_llm_ts)) e
            ∙ read-fresh w.last_llm_ts rs file fresh)
        ∙ ap
            (λ o.
              next o λ v. advance v (λ n. record v { last_llm_ts = n }) (last (map record_of rs)))
            (announce_llm-heard answers taken rs w)
        ∙ advance-newest (heard (map llm_of rs) w) _ w.last_llm_ts rs fresh.1 refl

    push_agent-heard :
        (rs : List Append) (d : DevFiles) (file : File) (w : Watcher)
        → IsFresh w.last_agent_ts rs file
        → d.agent ≡ appends dumps loads rs file
        → push_agent answers loads d w ≡ (
          ok tt,
          record (heard (map agent_of rs) w) { last_agent_ts = newest w.last_agent_ts rs },
        )
    unfolding push_agent
    push_agent-heard rs d file w fresh e =
        ap
          (λ g. using g w λ new_agent.
            next (announce_agent answers new_agent w)
              λ v. advance v (λ n. record v { last_agent_ts = n }) (last new_agent))
          (ap (read_recent_jsonl loads 200 (some w.last_agent_ts)) e
            ∙ read-fresh w.last_agent_ts rs file fresh)
        ∙ ap
            (λ o.
              next o λ v. advance v (λ n. record v { last_agent_ts = n }) (last (map record_of rs)))
            (announce_agent-heard answers taken rs w)
        ∙ advance-newest (heard (map agent_of rs) w) _ w.last_agent_ts rs fresh.1 refl

    -- One round sends what was appended to the two files since the last one.
    abbrev pub after_round : List Append → List Append → Watcher → Watcher
    after_round rs agents w = record (heard (map llm_of rs ++ map agent_of agents) w) {
      last_llm_ts = newest w.last_llm_ts rs;
      last_agent_ts = newest w.last_agent_ts agents;
    }

    abbrev pub files : List Append → List Append → File → File → DevFiles
    files rs agents llm_file agent_file = record {
      metrics = appends dumps loads rs llm_file;
      agent = appends dumps loads agents agent_file;
      snapshot = none;
    }

    abbrev pub after_llm : List Append → Watcher → Watcher
    after_llm rs w = record (heard (map llm_of rs) w) { last_llm_ts = newest w.last_llm_ts rs }

    pub poll-heard :
        (rs agents : List Append) (llm_file agent_file : File) (w : Watcher)
        → is_empty w.connections ≡ false
        → IsFresh w.last_llm_ts rs llm_file
        → IsFresh w.last_agent_ts agents agent_file
        → poll answers loads (files rs agents llm_file agent_file) w
          ≡ (ok tt, after_round rs agents w)
    unfolding poll push_transcript
    poll-heard rs agents llm_file agent_file w some_socket fresh fresh' =
        let d = files rs agents llm_file agent_file in
        rw some_socket (
          ap (λ o. next (next o (push_agent answers loads d)) (push_transcript answers loads d))
            (push_llm-heard rs d llm_file w fresh refl)
          ∙ ap (λ o. next o (push_transcript answers loads d))
              (push_agent-heard agents d agent_file (after_llm rs w) fresh' refl)
          ∙ ap
              (λ v. (
                ok tt,
                record v {
                  last_llm_ts = newest w.last_llm_ts rs;
                  last_agent_ts = newest w.last_agent_ts agents;
                },
              ))
              (heard-heard (map llm_of rs) (map agent_of agents) w))
