-- ===== src/Voice/Worker/Dispatch.antt =====
-- `_room_metadata` and `entrypoint` of ai-service/app/voice_agent/worker.py. What a dispatch does is the
-- list of its effects on the room, the session and the job, in order.
pub mod Laws
use hire_os_be.Prelude.{
  ◌&&◌, ◌+◌, ◌++◌, ◌-◌, ◌==◌, [], Bool, if◌then◌else◌, List, none, not, Option, some, String, suc,
  zero, ◌||◌, ℕ, ◌∷◌,
}
use hire_os_be.Prelude.{or_else, truthy}
use hire_os_be.Prelude.{◌>>=◌, Exc, false, ok, other, raise, Result}
use hire_os_be.Prelude.Json.{get_field, is_true, Json, json_text}
use text.Mathlib.Text.{starts_with}
use hire_os_be.Voice.Prompts.{str}
use hire_os_be.Voice.Prompts.Build.{build_interview_system_prompt}
use hire_os_be.Voice.Prompts.Texts.{
  candidate_opening_instructions, candidate_silence_nudge_instructions,
}
use hire_os_be.Voice.Prompts.DiscoveryTexts.{
  discovery_opening_instructions, discovery_silence_nudge_instructions, discovery_system_prompt,
}
use hire_os_be.Voice.Signing.{Metadata, text_of, verify_metadata_signature}

-- The answer of `list_rooms`: an exception, or the metadata of the first room if there is one.
pub data Read : Type 0 where
  failed : Read
  rooms : Option String → Read

abbrev pub reported : Read → Option String
reported failed = none
reported (rooms none) = none
reported (rooms (some metadata)) = if truthy metadata then some metadata else none

-- The loop over the attempts that are left, from attempt number `i`.
unfoldable pub retry_metadata : ℕ → ℕ → (ℕ → Read) → String
retry_metadata zero i reads = "{}"
retry_metadata (suc left) i reads =
    let rest = retry_metadata left (suc i) reads in
    elim (reported (reads i)) [ none ↦ rest | some raw ↦ raw ]

unfoldable pub raw_metadata : Option String → (ℕ → Read) → String
unfolding retry_metadata
raw_metadata metadata reads =
    let raw = or_else metadata "{}" in if raw == "{}" then retry_metadata 5 0 reads else raw

-- The entries of the metadata that `entrypoint` reads, and `{}`. A `promptContext` that is no text is as
-- none here: what `json.loads` raises for it is ignored.
pub record RoomMetadata : Type 0 where
  pub signed : Metadata
  pub prompt_context : Option String

abbrev pub no_metadata : RoomMetadata
no_metadata = record {
  signed = record {
    metadata_signature = none;
    tenant_id = none;
    session_id = none;
    session_type = none;
    resume_context = none;
  };
  prompt_context = none;
}

-- What `json.loads` answers: a JSONDecodeError, a value that is no object, or an object.
pub data Decoded : Type 0 where
  not_json not_an_object : Decoded
  object : RoomMetadata → Decoded

-- The metadata, where none is a value that is no object.
unfoldable pub room_metadata : (String → Decoded) → Option String → (ℕ → Read) → Option RoomMetadata
unfolding raw_metadata
room_metadata loads metadata reads = elim (loads (raw_metadata metadata reads)) [
  | not_json ↦ some no_metadata
  | not_an_object ↦ none
  | object m ↦ some m
]

pub data Persona : Type 0 where
  candidate discovery : Persona

-- What is read of `promptContext`: the texts that are given.
pub record PromptData : Type 0 where
  pub conversation_flow : Option String
  pub system_boundaries : Option String
  pub opening_instructions : Option String
  pub silence_instructions : Option String

abbrev pub no_prompt_data : PromptData
no_prompt_data = record {
  conversation_flow = none;
  system_boundaries = none;
  opening_instructions = none;
  silence_instructions = none;
}

pub record SessionPlan : Type 0 where
  pub persona : Persona
  pub system_prompt : String
  pub opening_instructions : String
  pub nudge_instructions : String
  pub has_vad : Bool

pub data Effect : Type 0 where
  connect_audio_only reset_dev_metrics register_dev_metrics register_controls : Effect
  shutdown : String → Effect
  start_session : SessionPlan → Effect
  register_silence_handling : String → Effect
  add_shutdown_callback : Option Json → Option Json → Effect
  -- The job ends with an exception.
  job_error : Exc → Effect

abbrev pub is_console_room : String → Bool
is_console_room name = name == "console" || name == "console-room" || starts_with name "console"

abbrev as_text : Json → Option String
as_text (json_text s) = some s
as_text v = none

-- `metadata.get("sessionType", CANDIDATE_INTERVIEW)`, where a value that is no text equals no text.
abbrev pub session_type_of : Metadata → Option String
session_type_of m = elim m.session_type [ none ↦ some "candidate_interview" | some v ↦ as_text v ]

abbrev pub is_session_type : String → Metadata → Bool
is_session_type wanted m = elim (session_type_of m) [ none ↦ false | some t ↦ t == wanted ]

-- `loads` is `json.loads`, and `show` is `str` of a value that is no text.
module _ (show : Json → String) (loads : String → Option Json) where
  -- `value or default`, for a value that may be missing: what is given, as a text.
  unfoldable pub given_text : Option Json → Option String
  unfolding is_true
  given_text none = none
  given_text (some v) = if is_true v then some (str show v) else none

  -- `prompt_data.get` of the four keys; a text that does not parse leaves the prompt data empty.
  unfoldable pub read_prompt_data : Option Json → Result PromptData
  unfolding given_text get_field
  read_prompt_data none = ok no_prompt_data
  read_prompt_data (some v) = do
    flow ← get_field "conversationFlow" v
    limits ← get_field "systemBoundaries" v
    opening ← get_field "openingInstructions" v
    silence ← get_field "silenceInstructions" v
    ok (record {
      conversation_flow = given_text flow;
      system_boundaries = given_text limits;
      opening_instructions = given_text opening;
      silence_instructions = given_text silence;
    })

  unfoldable pub prompt_data_of : Option String → Result PromptData
  unfolding read_prompt_data
  prompt_data_of none = ok no_prompt_data
  prompt_data_of (some context) =
      if truthy context then read_prompt_data (loads context) else ok no_prompt_data

  -- A resume that is no text, which no verified metadata have, raises a TypeError; that the code would
  -- go on with a slice of a list, in a console room, is left out.
  unfoldable pub plan : RoomMetadata → Bool → Result SessionPlan
  unfolding prompt_data_of text_of build_interview_system_prompt
  plan m has_vad =
      if is_session_type "hiring_manager_discovery" m.signed
      then ok (record {
        persona = discovery;
        system_prompt = discovery_system_prompt;
        opening_instructions = discovery_opening_instructions;
        nudge_instructions = discovery_silence_nudge_instructions;
        has_vad = has_vad;
      })
      else (do
        d ← prompt_data_of m.prompt_context
        resume_context ← text_of m.signed.resume_context
        system_prompt ←
            build_interview_system_prompt show loads (some resume_context) d.conversation_flow
              d.system_boundaries
        ok (record {
          persona = candidate;
          system_prompt = system_prompt;
          opening_instructions = or_else d.opening_instructions candidate_opening_instructions;
          nudge_instructions = or_else d.silence_instructions candidate_silence_nudge_instructions;
          has_vad = has_vad;
        }))

  -- The end of `entrypoint`, once a room was accepted.
  unfoldable pub start_call : Bool → RoomMetadata → Bool → List Effect
  unfolding plan
  start_call dev_metrics m has_vad = elim (plan m has_vad) [
    | raise e ↦ job_error e ∷ []
    | ok p ↦
        (start_session p ∷ register_controls ∷ register_silence_handling p.nudge_instructions ∷ [])
        ++ (if dev_metrics then register_dev_metrics ∷ [] else [])
        ++ (if is_session_type "candidate_interview" m.signed
            then add_shutdown_callback m.signed.tenant_id m.signed.session_id ∷ []
            else [])
  ]

  -- `entrypoint` for metadata that are an object, from the check of their signature on.
  unfoldable pub dispatch :
      (String → String → String) → String → Bool → String → RoomMetadata → Bool → List Effect
  unfolding start_call
  dispatch hmac internal_service_secret dev_metrics room_name m has_vad =
      let started = start_call dev_metrics m has_vad in
      if is_console_room room_name
      then started
      else elim (verify_metadata_signature hmac m.signed internal_service_secret) [
        | raise e ↦ job_error e ∷ []
        | ok verified ↦
            if not verified then shutdown "invalid room metadata signature" ∷ [] else started
      ]

  -- `entrypoint` after the settings and the routing file were loaded. A value that is no object has no
  -- `get`.
  unfoldable pub entrypoint :
      (String → String → String) → String → Bool → String → Option RoomMetadata → Bool → List Effect
  unfolding dispatch
  entrypoint hmac internal_service_secret dev_metrics room_name metadata has_vad =
      (connect_audio_only ∷ (if dev_metrics then reset_dev_metrics ∷ [] else [])) ++ elim metadata [
        | none ↦ job_error (other "AttributeError") ∷ []
        | some m ↦ dispatch hmac internal_service_secret dev_metrics room_name m has_vad
      ]
