-- ===== src/Voice/Discovery/Turn.antt =====
-- `DiscoveryLLMStream._run` of ai-service/app/voice_agent/discovery_llm.py: one turn of the intake, over
-- the gateway's stream. The framework takes every chunk.
use hire_os_be.Prelude.{ap, List, map, none, some, String, ◌≡◌}
use hire_os_be.Prelude.{Exc, ok, raise, Result}
use hire_os_be.Gateway.Client.{World}
use hire_os_be.Gateway.Metrics.{Prompts}
use hire_os_be.Gateway.Policy.{Policies}
use hire_os_be.Gateway.State.{Gateway}
use hire_os_be.Gateway.Streaming.{closed, completed, Ending, failed, run_stream}
use hire_os_be.Voice.Discovery.{Discovery, schedule_extraction}
use hire_os_be.Voice.Discovery.Prompt.{discovery_turn_prompt}
use hire_os_be.Voice.Rolling.Turn.{ChatChunk, stream_turn_chunks}
use hire_os_be.Voice.Transcript.{extract_transcript_lines, Message}

pub record DiscoveryTurned : Type 0 where
  pub chunks : List ChatChunk
  pub outcome : Result (Unit {0})
  pub gateway : Gateway
  pub memory : Discovery

unfoldable pub discovery_prompts : String → List Message → Discovery → Prompts
unfolding discovery_turn_prompt
discovery_prompts system_prompt messages d = record {
  use_case = "role_discovery_turn";
  system_prompt = system_prompt;
  user_prompt = discovery_turn_prompt (some system_prompt) d.fields messages;
  context_detail = none;
}

-- The turn after its stream ended: the extraction is scheduled if it completed.
unfoldable pub end_discovery_turn :
    List String → Ending → List ChatChunk → Gateway → Discovery → DiscoveryTurned
unfolding schedule_extraction
end_discovery_turn lines (failed e) chunks g d = record {
  chunks = chunks;
  outcome = raise e;
  gateway = g;
  memory = d;
}
end_discovery_turn lines closed chunks g d = record {
  chunks = chunks;
  outcome = ok tt;
  gateway = g;
  memory = d;
}
end_discovery_turn lines completed chunks g d = record {
  chunks = chunks;
  outcome = ok tt;
  gateway = g;
  memory = schedule_extraction lines d;
}

module _ (w : World) where
  unfoldable pub run_discovery_turn :
      String → Policies → String → List Message → Gateway → Discovery → DiscoveryTurned
  unfolding stream_turn_chunks discovery_prompts end_discovery_turn
  run_discovery_turn request_id policies system_prompt messages g d =
      let streamed =
        stream_turn_chunks w request_id policies (discovery_prompts system_prompt messages d) g in
      end_discovery_turn (extract_transcript_lines "Hiring Manager" "Agent" messages) streamed.0.1
        streamed.0.0 streamed.1 d

  -- A turn of the intake whose stream fails raises the stream's exception and schedules no extraction.
  run_discovery_turn-failed :
      (request_id : String) (policies : Policies) (system_prompt : String) (messages : List Message)
      (g : Gateway) (d : Discovery) (e : Exc)
      → (run_stream w none policies (discovery_prompts system_prompt messages d) g).0.ending
        ≡ failed e
      → let t = run_discovery_turn request_id policies system_prompt messages g d in
        (t.outcome ≡ raise e) × (t.memory ≡ d)
  unfolding run_discovery_turn stream_turn_chunks end_discovery_turn
  run_discovery_turn-failed request_id policies system_prompt messages g d e h =
      let (y, g') = run_stream w none policies (discovery_prompts system_prompt messages d) g in
      let lines = extract_transcript_lines "Hiring Manager" "Agent" messages in
      let chunks : List ChatChunk =
        map (λ piece. record { id = request_id; content = piece }) y.out in
      let ended = ap (λ x. end_discovery_turn lines x chunks g' d) h in
      (ap (λ t. t.outcome) ended, ap (λ t. t.memory) ended)
