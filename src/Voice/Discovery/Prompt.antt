-- ===== src/Voice/Discovery/Prompt.antt =====
-- The prompts of `DiscoveryLLM` in ai-service/app/voice_agent/discovery_llm.py.
use hire_os_be.Prelude.{◌+s◌, if◌then◌else◌, is_empty, join, List, Option, String}
use hire_os_be.Voice.Fields.{DiscoveryFields, format_state_for_prompt}
use hire_os_be.Voice.Transcript.{
  extract_pending_instructions, extract_transcript_lines, Message, with_instructions,
}

-- `build_user_prompt`
unfoldable pub discovery_user_prompt : DiscoveryFields → List String → String
discovery_user_prompt state lines =
    let transcript =
      if is_empty lines then "(conversation hasn't started yet)" else join "\n" lines in
    "Transcript so far:\n" +s transcript +s "\n\n" +s format_state_for_prompt state

-- The prompt of one turn of the intake.
unfoldable pub discovery_turn_prompt : Option String → DiscoveryFields → List Message → String
unfolding discovery_user_prompt
discovery_turn_prompt system_prompt state messages =
    with_instructions (extract_pending_instructions messages system_prompt)
      (discovery_user_prompt state (extract_transcript_lines "Hiring Manager" "Agent" messages))
