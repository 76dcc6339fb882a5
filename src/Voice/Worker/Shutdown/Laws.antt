-- ===== src/Voice/Worker/Shutdown/Laws.antt =====
-- A finished interview is stored until the platform confirms it, with the transcript that was
-- evaluated.
use hire_os_be.Prelude.{
  ◌++◌, [], ap, eq_refl, if◌then◌else◌, none, refl, some, String, true, ℕ, ◌∷◌, ◌≡◌,
}
use hire_os_be.Prelude.{Result, truthy}
use hire_os_be.Prelude.Dict
use hire_os_be.Voice.Transcript.{extract_transcript_lines}
use hire_os_be.Voice.Transcript.Laws.{flat-extract_structured_transcript}
use hire_os_be.Voice.Evaluation.{evaluate_interview, EvaluationLlmOutput}
use hire_os_be.Voice.Delivery.{confirmed, deliver_transcript, Outbox, payload, Reply}
use hire_os_be.Voice.Delivery.Laws.{deliver_transcript_lem}
use hire_os_be.Voice.Worker.Shutdown.{Ended, on_shutdown, Payload, payload_of}

module _ (show : ℕ → String) (digest : String → String) (dumps : Payload → String)
    (run_structured : String → Result EvaluationLlmOutput)
    (platform : String → String → Reply) where
  abbrev pub body : String → String → String → Ended → String
  body tenant session system_prompt call =
      dumps (payload_of show digest dumps run_structured platform tenant session system_prompt call)

  on_shutdown-runs :
      (tenant session system_prompt : String) (call : Ended) (box : Outbox)
      → truthy tenant ≡ true
      → truthy session ≡ true
      → on_shutdown show digest dumps run_structured platform
          (some tenant)
          (some session)
          system_prompt
          call
          box
        ≡ (deliver_transcript platform session (body tenant session system_prompt call) box).1
  unfolding on_shutdown
  on_shutdown-runs tenant session system_prompt call box ht hs = rw (on_shutdown, ht, hs) refl

  -- When an interview with its tenant's and session's ids ends, its payload is posted once, and the
  -- outbox keeps it exactly if the platform does not confirm; its evaluation is that of the lines
  -- that the turns' prompts showed, and whatever the language model did there is one.
  pub on_shutdown-delivers :
      (tenant session system_prompt : String) (call : Ended) (box : Outbox)
      → truthy tenant ≡ true
      → truthy session ≡ true
      → let after =
          on_shutdown show digest dumps run_structured platform
            (some tenant)
            (some session)
            system_prompt
            call
            box in
        let sent = body tenant session system_prompt call in
        (after.posted ≡ box.posted ++ (session, sent) ∷ [])
        × (Dict.get session after.files
            ≡ (if confirmed (platform session sent) then none else some (payload sent)))
        × ((payload_of show digest dumps run_structured platform tenant session system_prompt
              call).evaluation
            ≡ evaluate_interview run_structured call.now session
                (extract_transcript_lines "Candidate" "Interviewer" call.history))
  unfolding on_shutdown payload_of
  on_shutdown-delivers tenant session system_prompt call box ht hs =
      let sent = body tenant session system_prompt call in
      let (files, posted) = deliver_transcript_lem platform session sent session box in
      rw (on_shutdown-runs tenant session system_prompt call box ht hs) (
        posted,
        rw (eq_refl session) at files,
        ap (evaluate_interview run_structured call.now session)
            (flat-extract_structured_transcript "Candidate" "Interviewer" call.history),
      )
