-- ===== src/Voice/Tests.antt =====
-- Runs of the memories, the handlers and the extractions.
use hire_os_be.Prelude.{
  ◌+◌, ◌++◌, ◌-◌, ◌<◌, [], ap, arith, get_elem?, last_n, length, List, none, refl, some, String, ℕ,
  ◌∷◌, ◌≡◌, ◌≤◌,
}
use hire_os_be.Voice.Rolling.{
  finish, finish_consolidation, here, next, Reach, Rolling, schedule_consolidation, start,
  start_consolidation, turn,
}
use hire_os_be.Voice.Rolling.Laws.{IsFaithful, Reach-IsFaithful}
use hire_os_be.Voice.Rolling.Window.{turn-covers}
use hire_os_be.Prelude.{◌+s◌, join}
use hire_os_be.Voice.Rolling.{build_user_prompt}
use hire_os_be.Voice.Discovery
use hire_os_be.Voice.Discovery.Laws.{IsCovered, Reach-IsCovered}
use hire_os_be.Voice.Handlers.{generate_reply, on_user_states}
use hire_os_be.Voice.Handlers.Laws.{
  aways, due, on_user_states-silent, on_user_states-speaking, replicate,
}
use hire_os_be.Voice.Latency.{Metrics, on_all_metrics, on_eou, on_tts}
use hire_os_be.Voice.Latency.Laws.{on_all_metrics-bound, on_tts-on_eou}
use hire_os_be.Voice.Fields.{DiscoveryFields, Field, merge, missing_field_labels, set_field}
use hire_os_be.Voice.Fields.Laws.{missing_field_labels-merge-le}
use hire_os_be.Voice.Transcript.{extract_pending_instructions, Message, system}
use hire_os_be.Voice.Transcript.Laws.{extract_pending_instructions-IsInstruction, IsInstruction}

abbrev sixteen : List String
sixteen =
    "1" ∷ "2" ∷ "3" ∷ "4" ∷ "5" ∷ "6" ∷ "7" ∷ "8" ∷ "9" ∷ "10" ∷ "11" ∷ "12" ∷ "13" ∷ "14" ∷ "15"
    ∷ "16" ∷ []

abbrev after_turn : Rolling
unfolding schedule_consolidation
after_turn =
    schedule_consolidation sixteen (record hire_os_be.Voice.Rolling.init { lines = sixteen })

abbrev consolidated : Rolling
unfolding start_consolidation finish_consolidation
consolidated = finish_consolidation sixteen (some "S") (start_consolidation sixteen [] after_turn)

consolidated-Reach : Reach consolidated
unfolding schedule_consolidation start_consolidation finish_consolidation consolidated
consolidated-Reach =
    next (next (next here (turn sixteen)) (start sixteen [] refl refl))
      (finish sixteen (some "S") refl)

Reach-IsFaithful_example : IsFaithful consolidated
Reach-IsFaithful_example = Reach-IsFaithful consolidated-Reach

turn-covers_example :
    let s =
      schedule_consolidation
        (consolidated.lines ++ "17" ∷ [])
        (record consolidated { lines = consolidated.lines ++ "17" ∷ [] }) in
    (unseen : List String) × (shown : List String) × ((s.folded ++ unseen) ++ shown ≡ s.lines)
    × (length unseen < 6)
    × (build_user_prompt s.summary s.lines
        ≡ "Summary of earlier conversation:\n"
          +s "S"
          +s "\n\nMost recent exchange:\n"
          +s join "\n" shown)
unfolding schedule_consolidation start_consolidation finish_consolidation
turn-covers_example = turn-covers consolidated-Reach ("17" ∷ []) refl refl

Reach-IsCovered_example :
    IsCovered (Discovery.schedule_extraction ("Agent: Hi" ∷ []) Discovery.init)
Reach-IsCovered_example =
    Reach-IsCovered (Discovery.next Discovery.here (Discovery.schedule ("Agent: Hi" ∷ [])))

abbrev quiet : List String
quiet = "away" ∷ "listening" ∷ "away" ∷ "away" ∷ []

on_user_states-silent_example :
    on_user_states "Hello?" quiet 1
    ≡ (1 + due (aways quiet) 1, replicate (due (aways quiet) 1) (generate_reply "Hello?"))
on_user_states-silent_example = on_user_states-silent "Hello?" quiet 1 (omega arith) refl

on_user_states-speaking_example :
    (on_user_states "Hello?" (quiet ++ "speaking" ∷ quiet) 0).1
    ≡ (on_user_states "Hello?" quiet 0).1 ++ (on_user_states "Hello?" quiet 0).1
on_user_states-speaking_example = on_user_states-speaking "Hello?" quiet quiet

on_all_metrics-bound_example :
    length
      (on_all_metrics "room" (Metrics.eou (some "u1") 5 ∷ Metrics.tts (some "u1") 9 1 ∷ []) []).0
    ≤ 20
on_all_metrics-bound_example =
    on_all_metrics-bound "room" (Metrics.eou (some "u1") 5 ∷ Metrics.tts (some "u1") 9 1 ∷ []) []
      (omega arith)

on_tts-on_eou_example :
    let first = on_tts (some "u1") 9 1 (on_eou (some "u1") 5 []) in
    (first.1 ≡ some (record { speech_id = "u1"; audio_ts = 9 + 1; eou_ts = 5 }))
    × ((on_tts (some "u1") 20 1 first.0).1 ≡ none)
on_tts-on_eou_example = on_tts-on_eou "u1" 5 9 1 20 1 []

abbrev captured : DiscoveryFields
captured = set_field Field.hiring_reason (some "growth") (λ f. none)

missing_field_labels-merge-le_example :
    length (missing_field_labels (merge (λ f. none) captured))
    ≤ length (missing_field_labels (λ f. none))
missing_field_labels-merge-le_example = missing_field_labels-merge-le (λ f. none) captured

abbrev nudged : List Message
nudged =
    record { role = system; text_content = some "You interview."; created_at = 0 }
    ∷ record { role = system; text_content = some "Check in."; created_at = 9 }
    ∷ []

extract_pending_instructions-IsInstruction_example :
    (i : ℕ) × (m : Message) × (get_elem? nudged i ≡ some m)
    × IsInstruction (some "You interview.") m "Check in."
unfolding extract_pending_instructions hire_os_be.Prelude.strip
extract_pending_instructions-IsInstruction_example =
    extract_pending_instructions-IsInstruction (some "You interview.") nudged "Check in." refl
