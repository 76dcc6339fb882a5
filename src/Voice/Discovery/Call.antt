-- ===== src/Voice/Discovery/Call.antt =====
-- A whole call of the intake of ai-service/app/voice_agent/discovery_llm.py: its turns and its
-- background extractions, in any order, each over the gateway in any state.
use hire_os_be.Prelude.{
  ap, arith, Bool-cases, inl, inr, is_empty, List, Option, refl, some, String, subst, suc, sym,
  ◌||◌, ℕ, ◌∙◌, ◌≡◌, ◌⊎◌,
}
use hire_os_be.Gateway.Client.{World}
use hire_os_be.Gateway.Policy.{Policies}
use hire_os_be.Gateway.State.{Gateway}
use hire_os_be.Gateway.Streaming.{closed, completed, Ending, failed}
use hire_os_be.Voice.Discovery.{
  acquire, Discovery, extracting, here, init, next, Reach, same_option, schedule,
  schedule_extraction, start, unlocked,
}
use hire_os_be.Voice.Discovery.Extraction.{
  extract, extract-keeps_or_states, extract-Step, Extracted,
}
use hire_os_be.Voice.Discovery.Laws.{fields-loop}
use hire_os_be.Voice.Discovery.Turn.{discovery_prompts, end_discovery_turn, run_discovery_turn}
use hire_os_be.Voice.Fields.{DiscoveryFields, Field}
use hire_os_be.Voice.Rolling.Turn.{ChatChunk, stream_turn_chunks}
use hire_os_be.Voice.Transcript.{extract_transcript_lines, Message}

module _ (w : World) (validate : String → Option DiscoveryFields)
    (model_dump_json : DiscoveryFields → String) (policies : Policies) where
  pub data CallStep (d : Discovery) : Discovery → Type 0 where
    turn :
        (request_id system_prompt : String) (messages : List Message) (g : Gateway)
        → CallStep d (run_discovery_turn w request_id policies system_prompt messages g d).memory
    lock : (left : ℕ) → d.phase ≡ unlocked → d.tasks ≡ suc left → CallStep d (acquire left d)
    extraction :
        (lines : List String) (g : Gateway)
        → d.phase ≡ extracting lines
        → CallStep d (extract w validate model_dump_json policies g lines d).0

  pub data CallReach : Discovery → Type 0 where
    starts : CallReach init
    goes : {d e : Discovery} → CallReach d → CallStep d e → CallReach e

  fields-acquire : (left : ℕ) (d : Discovery) → (acquire left d).fields ≡ d.fields
  unfolding acquire
  fields-acquire left d = fields-loop (record d { tasks = left })

  -- A turn leaves the memory as it was or schedules its transcript.
  memory-end_discovery_turn :
      (lines : List String) (ending : Ending) (chunks : List ChatChunk) (g : Gateway)
      (d : Discovery)
      → ((end_discovery_turn lines ending chunks g d).memory ≡ d)
        ⊎ ((end_discovery_turn lines ending chunks g d).memory ≡ schedule_extraction lines d)
  unfolding end_discovery_turn
  memory-end_discovery_turn lines (failed e) chunks g d = inl refl
  memory-end_discovery_turn lines closed chunks g d = inl refl
  memory-end_discovery_turn lines completed chunks g d = inr refl

  memory-run_discovery_turn :
      (request_id system_prompt : String) (messages : List Message) (g : Gateway) (d : Discovery)
      → let after = (run_discovery_turn w request_id policies system_prompt messages g d).memory in
        (after ≡ d) ⊎ ((lines : List String) × (after ≡ schedule_extraction lines d))
  unfolding run_discovery_turn
  memory-run_discovery_turn request_id system_prompt messages g d =
      let lines = extract_transcript_lines "Hiring Manager" "Agent" messages in
      let streamed =
        stream_turn_chunks w request_id policies (discovery_prompts system_prompt messages d) g in
      elim (memory-end_discovery_turn lines streamed.0.1 streamed.0.0 streamed.1 d) [
        | inl e ↦ inl e
        | inr e ↦ inr (lines, e)
      ]

  -- The steps of a call are steps of the background extraction, or leave the memory as it is.
  pub CallReach-Reach : {d : Discovery} → CallReach d → Reach d
  CallReach-Reach starts = here
  CallReach-Reach (goes {d} r (turn request_id system_prompt messages g)) =
      let before = CallReach-Reach r in
      elim (memory-run_discovery_turn request_id system_prompt messages g d) [
        | inl e ↦ subst Reach (sym e) before
        | inr (lines, e) ↦ subst Reach (sym e) (next before (schedule lines))
      ]
  CallReach-Reach (goes {d} r (lock left free some_task)) =
      next (CallReach-Reach r) (start left free some_task)
  CallReach-Reach (goes {d} r (extraction lines g held)) =
      next (CallReach-Reach r) (extract-Step w validate model_dump_json policies g lines d held)

  fields-schedule_extraction :
      (lines : List String) (d : Discovery) → (schedule_extraction lines d).fields ≡ d.fields
  unfolding schedule_extraction
  fields-schedule_extraction lines d =
      elim (Bool-cases (is_empty lines || same_option lines d.last_processed_lines)) [
        | inl skip ↦ rw skip refl
        | inr new ↦ rw new refl
      ]

  fields-CallStep :
      {d e : Discovery} (f : Field) (v : String)
      → CallStep d e
      → e.fields f ≡ some v
      → (d.fields f ≡ some v) ⊎ Extracted w validate model_dump_json policies f v
  fields-CallStep {d} f v (turn request_id system_prompt messages g) h =
      elim (memory-run_discovery_turn request_id system_prompt messages g d) [
        | inl e ↦ inl (sym (ap (λ s. s.fields f) e) ∙ h)
        | inr (lines, e) ↦
            inl (
              sym (ap (λ s. s.fields f) e ∙ ap (λ s. s f) (fields-schedule_extraction lines d)) ∙ h)
      ]
  fields-CallStep {d} f v (lock left free some_task) h =
      inl (sym (ap (λ s. s f) (fields-acquire left d)) ∙ h)
  fields-CallStep {d} f v (extraction lines g held) h =
      elim (extract-keeps_or_states w validate model_dump_json policies g lines d f) [
        | inl same ↦ inl (sym same ∙ h)
        | inr (u, e, given) ↦
            inr
              (subst (Extracted w validate model_dump_json policies f) (ground (arith, e, h)) given)
      ]

  -- In every reachable state of a call each collected field is a value that a tier of the extraction's
  -- chain gave in a completion that the schema accepted: no turn, no failed extraction and no merge
  -- makes up a value.
  pub CallReach-Extracted :
      {d : Discovery} (f : Field) (v : String)
      → CallReach d
      → d.fields f ≡ some v
      → Extracted w validate model_dump_json policies f v
  CallReach-Extracted f v starts h = cc
  CallReach-Extracted f v (goes r s) h = elim (fields-CallStep f v s h) [
    | inl before ↦ CallReach-Extracted f v r before
    | inr given ↦ given
  ]
