-- ===== src/Voice/Handlers.antt =====
-- ai-service/app/voice_agent/conversation_start.py and controls.py: the handlers of a session's
-- events, as functions from an event to the calls on the session.
pub mod Laws
use hire_os_be.Prelude.{ok, other, raise, Result}
use hire_os_be.Prelude.{
  ◌+◌, ◌++◌, ◌-◌, ◌==◌, [], ap, if◌then◌else◌, leb, List, map, none, Option, some, String, suc,
  take, ℕ, ◌∷◌,
}

-- A call on `AgentSession`.
pub data Call : Type 0 where
  generate_reply say : String → Call
  interrupt : Call

-- `OpeningAgent.on_enter`
abbrev pub on_enter : String → List Call
on_enter opening_instructions = generate_reply opening_instructions ∷ []

abbrev pub max_consecutive_nudges : ℕ
max_consecutive_nudges = 2

-- `_on_user_state_changed`: the new count and the calls.
unfoldable pub on_user_state_changed : String → String → ℕ → ℕ × List Call
on_user_state_changed nudge_instructions new_state n =
    if new_state == "away"
    then (if leb max_consecutive_nudges n
        then (n, [])
        else (suc n, generate_reply nudge_instructions ∷ []))
    else (if new_state == "speaking" then (0, []) else (n, []))

-- The handler over the states that the session reports, and all its calls.
unfoldable pub on_user_states : String → List String → ℕ → ℕ × List Call
unfolding on_user_state_changed
on_user_states nudge [] n = (n, [])
on_user_states nudge (state ∷ more) n =
    let first = on_user_state_changed nudge state n in
    let rest = on_user_states nudge more first.0 in (rest.0, first.1 ++ rest.1)

abbrev pub controls_topic : String
controls_topic = "interview-controls"

abbrev pub repeat_instructions : String
repeat_instructions =
    "The candidate asked you to repeat your previous question. Repeat it in the same words, without adding anything new."

abbrev pub clarify_instructions : String
clarify_instructions =
    "The candidate asked you to clarify your previous question. Rephrase it more simply and clearly, without changing what it's asking."

abbrev pub pause_message : String
pause_message = "Sure, take your time. Let me know when you're ready to continue."

abbrev pub resume_message : String
resume_message = "Great, let's continue — go ahead whenever you're ready."

-- What decoding a packet's data as JSON gives. `no_mapping` is JSON that has no `get`, on which the
-- handler raises.
pub data Payload : Type 0 where
  malformed no_mapping : Payload
  action : Option String → Payload

abbrev pub calls_of : String → List Call
calls_of a =
    if a == "repeat"
    then generate_reply repeat_instructions ∷ []
    else (if a == "clarify"
        then generate_reply clarify_instructions ∷ []
        else (if a == "pause"
            then interrupt ∷ say pause_message ∷ []
            else (if a == "resume" then say resume_message ∷ [] else [])))

unfoldable pub act : Payload → Result (List Call)
act malformed = ok []
act no_mapping = raise (other "AttributeError")
act (action none) = ok []
act (action (some a)) = ok (calls_of a)

-- `on_data_received`
unfoldable pub on_data_received : String → Payload → Result (List Call)
unfolding act
on_data_received topic payload = if topic == controls_topic then act payload else ok []
