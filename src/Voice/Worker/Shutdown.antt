-- ===== src/Voice/Worker/Shutdown.antt =====
-- `_deliver_transcript_on_shutdown` of ai-service/app/voice_agent/worker.py. The digest of the prompt
-- (the first twelve digits of its SHA-256), the JSON printer, the models' usage and the language model are parameters.
pub mod Laws
use hire_os_be.Prelude.{
  ◌&&◌, ◌+◌, [], ap, if◌then◌else◌, List, map, none, Option, some, String, ℕ, ◌∷◌,
}
use hire_os_be.Prelude.{is_set, or_else, Result, truthy}
use hire_os_be.Prelude.Dict.{Dict}
use hire_os_be.Voice.Transcript.{extract_structured_transcript, flat, Line, Message}
use hire_os_be.Voice.Evaluation.{
  evaluate_interview, EvaluationLlmOutput, InterviewEvaluationSummary,
}
use hire_os_be.Voice.Delivery.{deliver_transcript, Outbox, Reply}

pub record Payload : Type 0 where
  pub tenant_id : String
  pub lines : List Line
  pub rolling_summary : Option String
  pub evaluation : InterviewEvaluationSummary
  pub candidate_interview_version : String
  pub model_usage : Dict String

-- `getattr(session.llm, "rolling_summary", None) or None`
abbrev pub or_none : Option String → Option String
or_none none = none
or_none (some s) = if truthy s then some s else none

module _ (show : ℕ → String) where
  -- `{str(i): entry for i, entry in enumerate(raw_usage)}`
  unfoldable pub indexed_from : ℕ → List String → Dict String
  indexed_from i [] = []
  indexed_from i (entry ∷ more) = (show i, entry) ∷ indexed_from (i + 1) more

-- What a call leaves when it ends.
pub record Ended : Type 0 where
  pub history : List Message
  pub rolling_summary : Option String
  pub usage : List String
  pub now : String

module _ (show : ℕ → String) (digest : String → String) (dumps : Payload → String)
    (run_structured : String → Result EvaluationLlmOutput)
    (platform : String → String → Reply) where
  unfoldable pub payload_of : String → String → String → Ended → Payload
  unfolding indexed_from
  payload_of tenant_id session_id system_prompt call =
      let lines = extract_structured_transcript "Candidate" "Interviewer" call.history in
      record {
        tenant_id = tenant_id;
        lines = lines;
        rolling_summary = or_none call.rolling_summary;
        evaluation = evaluate_interview run_structured call.now session_id (map flat lines);
        candidate_interview_version = digest system_prompt;
        model_usage = indexed_from show 0 call.usage;
      }

  -- `_on_shutdown`, whose handler of exceptions only logs
  unfoldable pub on_shutdown : Option String → Option String → String → Ended → Outbox → Outbox
  unfolding payload_of
  on_shutdown tenant_id session_id system_prompt call box =
      if is_set tenant_id && is_set session_id
      then (deliver_transcript platform (or_else session_id "")
          (dumps (payload_of (or_else tenant_id "") (or_else session_id "") system_prompt call))
          box).1
      else box
