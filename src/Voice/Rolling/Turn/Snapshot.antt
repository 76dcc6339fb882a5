-- ===== src/Voice/Rolling/Turn/Snapshot.antt =====
-- What a turn of ai-service/app/voice_agent/gateway_llm.py leaves for the dashboard and the memory.
use hire_os_be.Prelude.{◌++◌, [], List, Option, some, String, ℕ, ◌∷◌, ◌≡◌}
use hire_os_be.Prelude.{◌+s◌, ok, raise}
use hire_os_be.Prelude.Json.{dict, items, Json, json_list, json_num, json_text}
use hire_os_be.Prelude.Dict.{Dict}
use hire_os_be.Gateway.State.{Gateway}
use hire_os_be.Gateway.Streaming.{closed, completed, Ending, failed}
use hire_os_be.Dev.Dashboard.{transcript}
use hire_os_be.Voice.Rolling.{schedule_consolidation}
use hire_os_be.Voice.Rolling.Turn.{Turned, TurnState}

-- The list of lines of a snapshot file.
abbrev pub text_items : List String → List Json
text_items [] = []
text_items (line ∷ lines) = json_text line ∷ text_items lines

-- What a turn with `reply` leaves by the way its stream ended.
abbrev pub IsEnded :
    (String → Option Json)
    → (session_label : String) (now : ℕ) (lines : List String) (reply : String) → TurnState
    → Ending
    → Turned
    → Type 0
IsEnded loads session_label now lines reply s completed t =
    (transcript loads t.state.files
      ≡ some (
          dict (
            ("session", json_text session_label)
            ∷ ("lines", json_list (items (text_items (lines ++ ("Interviewer: " +s reply) ∷ []))))
            ∷ ("updated_at", json_num now)
            ∷ [])))
    × (t.state.memory ≡ schedule_consolidation lines s.memory)
    × (t.outcome ≡ ok tt)
IsEnded loads session_label now lines reply s (failed e) t =
    (t.state.files ≡ s.files) × (t.state.memory ≡ s.memory) × (t.outcome ≡ raise e)
IsEnded loads session_label now lines reply s closed t =
    (t.state.files ≡ s.files) × (t.state.memory ≡ s.memory) × (t.outcome ≡ ok tt)
