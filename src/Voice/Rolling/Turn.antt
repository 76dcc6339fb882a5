-- ===== src/Voice/Rolling/Turn.antt =====
-- `GatewayLLMStream._run` of ai-service/app/voice_agent/gateway_llm.py and `stream_turn_chunks` of
-- llm_streaming.py: one turn of the interview, over the gateway's stream. The framework takes every
-- chunk.
pub mod Snapshot
use hire_os_be.Prelude.{
  ◌&&◌, ◌*◌, ◌+◌, ◌++◌, ◌-◌, ◌/◌, ◌<◌, ◌==◌, [], All, ap, arith, Bool, Bool-cases, drop, eq_iff,
  eq_refl, eqb, false, get_elem?, if◌then◌else◌, inl, inr, is_empty, last_n, leb, length,
  length-append, length-drop, length-last_n-le, length-map, List, ltb, map, none, not, Option,
  Option-cases, refl, some, String, subst, suc, sym, take, take-append-drop, true, zero, ◌||◌, ℕ,
  ◌↔◌, ◌∙◌, ◌∷◌, ◌≡◌, ◌≢◌, ◌≤◌, ◌⊎◌,
}
use hire_os_be.Prelude.{◌+s◌, Exc, join, ok, raise, Result, truthy}
use hire_os_be.Prelude.Dict.{Dict}
use hire_os_be.Prelude.Json.{items, Json, json_list, json_null, json_num, json_text}
use hire_os_be.Gateway.Client.{World}
use hire_os_be.Gateway.Metrics.{is_dev_metrics_enabled, Prompts}
use hire_os_be.Gateway.Policy.{Policies}
use hire_os_be.Gateway.State.{Gateway}
use hire_os_be.Gateway.Streaming.{closed, completed, Ending, failed, run_stream, Yielded}
use hire_os_be.Dev.MetricsLog.{DevFiles, write_transcript_snapshot}
use hire_os_be.Voice.Transcript.{extract_transcript_lines, Message}
use hire_os_be.Voice.Rolling.{Rolling, schedule_consolidation, turn_prompt, window_lines}

-- `ChatChunk(id=request_id, delta=ChoiceDelta(role="assistant", content=piece))`
pub record ChatChunk : Type 0 where
  pub id : String
  pub content : String

module _ (w : World) where
  unfoldable pub stream_turn_chunks :
      String → Policies → Prompts → Gateway → (List ChatChunk × Ending) × Gateway
  unfolding run_stream
  stream_turn_chunks request_id policies prompts g =
      let (y, g') = run_stream w none policies prompts g in
      ((map (λ piece. record { id = request_id; content = piece }) y.out, y.ending), g')

unfoldable pub context_detail : Bool → String → List String → Rolling → Option (Dict Json)
unfolding items
context_detail dev session_label lines r =
    if dev
    then some (
        ("session", json_text session_label)
        ∷ ("recent_window_lines", json_list (items (map json_text (last_n window_lines lines))))
        ∷ ("summary", (if truthy r.summary then json_text r.summary else json_null))
        ∷ ("summarized_line_count", json_num r.summarized)
        ∷ [])
    else none

-- The state that a turn changes: the gateway, the development files and the memory.
pub record TurnState : Type 0 where
  pub gateway : Gateway
  pub files : DevFiles
  pub memory : Rolling

-- What the framework was sent, and how the turn ended.
pub record Turned : Type 0 where
  pub chunks : List ChatChunk
  pub outcome : Result (Unit {0})
  pub state : TurnState

abbrev pub contents_of : List ChatChunk → List String
contents_of [] = []
contents_of (c ∷ l) = c.content ∷ contents_of l

-- The background task's schedule, unless the write of the snapshot raised.
abbrev pub then_schedule :
    List String → TurnState → Result (Unit {0}) × DevFiles → Result (Unit {0}) × TurnState
then_schedule lines s (raise e, files) = (raise e, record s { files = files })
then_schedule lines s (ok u, files) =
    (ok tt, record s { files = files; memory = schedule_consolidation lines s.memory })

module _ (w : World) (dumps : Json → String) (session_label : String) where
  abbrev pub save_snapshot :
      Bool
      → Option Exc
      → Option (Option String)
      → ℕ
      → List String
      → DevFiles
      → Result (Unit {0}) × DevFiles
  save_snapshot dev mkdir refused now lines d =
      if dev
      then write_transcript_snapshot dumps mkdir refused session_label lines now d
      else (ok tt, d)

  -- The statements after the stream. `mkdir` and `refused` are what the operating system answers to
  -- the write.
  unfoldable pub finish_turn :
      Option Exc
      → Option (Option String)
      → ℕ
      → List String
      → List ChatChunk
      → TurnState
      → Result (Unit {0}) × TurnState
  unfolding write_transcript_snapshot schedule_consolidation
  finish_turn mkdir refused now lines chunks s = then_schedule lines s (
      save_snapshot (is_dev_metrics_enabled w.env) mkdir refused now
        (lines ++ ("Interviewer: " +s join "" (contents_of chunks)) ∷ []) s.files)

  -- The turn after its stream ended.
  unfoldable pub end_turn :
      Option Exc
      → Option (Option String)
      → ℕ
      → List String
      → Ending
      → List ChatChunk
      → TurnState
      → Turned
  unfolding finish_turn
  end_turn mkdir refused now lines (failed e) chunks s = record {
    chunks = chunks;
    outcome = raise e;
    state = s;
  }
  end_turn mkdir refused now lines closed chunks s = record {
    chunks = chunks;
    outcome = ok tt;
    state = s;
  }
  end_turn mkdir refused now lines completed chunks s =
      let done = finish_turn mkdir refused now lines chunks s in
      record { chunks = chunks; outcome = done.0; state = done.1 }

  -- The call of the gateway's stream that a turn makes.
  unfoldable pub prompts_of : String → List Message → TurnState → Prompts
  unfolding context_detail turn_prompt
  prompts_of system_prompt messages s = record {
    use_case = "voice_interview_turn";
    system_prompt = system_prompt;
    user_prompt = turn_prompt (some system_prompt) s.memory.summary messages;
    context_detail =
        context_detail (is_dev_metrics_enabled w.env) session_label
          (extract_transcript_lines "Candidate" "Interviewer" messages) s.memory;
  }

  unfoldable pub run_turn :
      Option Exc
      → Option (Option String)
      → ℕ
      → String
      → Policies
      → String
      → List Message
      → TurnState
      → Turned
  unfolding stream_turn_chunks end_turn prompts_of
  run_turn mkdir refused now request_id policies system_prompt messages s =
      let streamed =
        stream_turn_chunks w request_id policies (prompts_of system_prompt messages s) s.gateway in
      end_turn mkdir refused now (extract_transcript_lines "Candidate" "Interviewer" messages)
        streamed.0.1 streamed.0.0 (record s { gateway = streamed.1 })
