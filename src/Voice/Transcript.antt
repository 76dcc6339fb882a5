-- ===== src/Voice/Transcript.antt =====
-- The chat context's use in ai-service/app/voice_agent/llm_streaming.py. A message's `text_content`
-- is the framework's; creation times are whole milliseconds.
pub mod Laws
use hire_os_be.Prelude.{
  ◌&&◌, ◌+◌, ◌-◌, ◌==◌, [], Bool, false, if◌then◌else◌, List, none, Option, some, String, true, ℕ,
  ◌∷◌,
}
use hire_os_be.Prelude.{◌+s◌, is_set, or_else, strip, truthy}

pub data Role : Type 0 where
  user assistant system developer : Role

pub record Message : Type 0 where
  pub role : Role
  pub text_content : Option String
  pub created_at : ℕ

-- A structured line: {"speaker", "text", "ts"}.
pub record Line : Type 0 where
  pub speaker : String
  pub text : String
  pub ts : ℕ

abbrev pub spoken : Role → Bool
spoken user = true
spoken assistant = true
spoken _ = false

module _ (user_label assistant_label : String) where
  abbrev pub speaker_of : Role → String
  speaker_of user = user_label
  speaker_of _ = assistant_label

  unfoldable pub extract_transcript_lines : List Message → List String
  extract_transcript_lines [] = []
  extract_transcript_lines (m ∷ more) =
      let rest = extract_transcript_lines more in
      elim m.text_content [
        | none ↦ rest
        | some text ↦
            if spoken m.role && truthy text
            then (speaker_of m.role +s ": " +s text) ∷ rest
            else rest
      ]

  unfoldable pub extract_structured_transcript : List Message → List Line
  extract_structured_transcript [] = []
  extract_structured_transcript (m ∷ more) =
      let rest = extract_structured_transcript more in
      elim m.text_content [
        | none ↦ rest
        | some text ↦
            if spoken m.role && truthy text
            then record { speaker = speaker_of m.role; text = text; ts = m.created_at } ∷ rest
            else rest
      ]

abbrev pub is_system : Role → Bool
is_system system = true
is_system _ = false

-- The system prompt's own message, which is passed over where a prompt is given.
abbrev pub repeats : String → Option String → Bool
repeats text none = false
repeats text (some prompt) = truthy prompt && strip text == strip prompt

unfoldable pub extract_pending_instructions : List Message → Option String → Option String
extract_pending_instructions [] system_prompt = none
extract_pending_instructions (m ∷ more) system_prompt =
    let rest = extract_pending_instructions more system_prompt in
    elim m.text_content [
      | none ↦ rest
      | some text ↦
          if is_system m.role && truthy text
          then (if repeats text system_prompt then rest else some text)
          else rest
    ]

-- The prompt of one turn, from the persona's own prompt and the messages.
unfoldable pub with_instructions : Option String → String → String
with_instructions pending user_prompt =
    if is_set pending
    then "[One-off instruction for this turn only: " +s or_else pending "" +s "]\n\n" +s user_prompt
    else user_prompt

-- The speaker and the text of a line, as `evaluate_interview` and the personas' prompts show it.
abbrev pub flat : Line → String
flat l = l.speaker +s ": " +s l.text
