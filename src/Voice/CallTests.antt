-- ===== src/Voice/CallTests.antt =====
-- A session, its prompts and a turn at concrete inputs.
use hire_os_be.Prelude.{
  ◌&&◌, ◌==◌, [], if◌then◌else◌, List, none, Option, refl, some, String, true, ℕ, ◌∷◌, ◌≡◌, ◌≤◌,
}
use hire_os_be.Prelude.{◌+s◌, is_ok, ok, str_len}
use hire_os_be.Prelude.Dict
use hire_os_be.Prelude.Dict.{Dict}
use hire_os_be.Prelude.Json.{dict, entries, fields, items, Json, json_list, json_text}
use hire_os_be.Dev.Codec.{dumps, loads, loads-dumps}
use hire_os_be.Gateway.Breaker
use hire_os_be.Gateway.Client.{fails, Stream, World}
use hire_os_be.Gateway.Policy.{Policies}
use hire_os_be.Gateway.Provider.{gemini, groq, openrouter, Provider}
use hire_os_be.Prelude.{other}
use hire_os_be.Voice.Prompts.{compact_resume_context}
use hire_os_be.Voice.Prompts.Laws.{is_ok-compact_resume_context, is_plain}
use hire_os_be.Voice.Prompts.Build.{build_interview_system_prompt, header}
use hire_os_be.Voice.Prompts.Texts.{boundaries}
use hire_os_be.Voice.Prompts.Closing.{build_interview_system_prompt-ends}
use hire_os_be.Voice.Rolling
use hire_os_be.Voice.Rolling.{Rolling, schedule_consolidation}
use hire_os_be.Voice.Rolling.Turn.{TurnState}
use hire_os_be.Voice.Session.{AgentSession, build_agent_session}
use hire_os_be.Voice.Session.Laws.{build_agent_session-models, stt_models, tts_models}
use hire_os_be.Voice.Settings.{Environ, Keys, VoiceAgentSettings}
use hire_os_be.Voice.Transcript.{Message, user}
use hire_os_be.Voice.Tuning.{VoiceTuningConfig}

abbrev keys : Keys
keys = record { deepgram_api_key = "d"; elevenlabs_api_key = "e"; gemini_api_key = "g" }

abbrev tuned : VoiceTuningConfig
tuned = record {
  stt = record { model = "deepgram/nova"; fallback_models = "cartesia/ink" ∷ [] };
  tts = record { model = "cartesia/sonic"; fallback_models = "elevenlabs/flash" ∷ [] };
  llm = record { model = "m"; fallback_models = [] };
}

abbrev settings : VoiceAgentSettings ℕ
settings = record {
  livekit_url = "u";
  livekit_api_key = "k";
  livekit_api_secret = "s";
  voice_provider = "livekit_inference";
  keys = record { deepgram_api_key = ""; elevenlabs_api_key = ""; gemini_api_key = "" };
  llm_provider_priority = openrouter ∷ gemini ∷ groq ∷ [];
  routing_config_path = "r";
  voice_tuning_config_path = "v";
  tts_speed = 900;
  endpointing_min_delay_s = 500;
  endpointing_max_delay_s = 3000;
  interruptions_enabled = true;
  turn_detection_mode = "semantic";
  stt_language = "en";
  tuning = tuned;
  noise_cancellation_enabled = true;
  platform_internal_url = "p";
  internal_service_secret = "s";
}

abbrev no_environ : Environ
no_environ name = none

abbrev built :
    (s : AgentSession ℕ) × (build_agent_session 500 750 no_environ (ok settings) "p" "room" true
      ≡ ok s)
unfolding build_agent_session
built = (_, refl)

build_agent_session-models_example :
    (stt_models built.0.stt ≡ "deepgram/nova" ∷ "cartesia/ink" ∷ [])
    × (tts_models built.0.tts ≡ "cartesia/sonic" ∷ "elevenlabs/flash" ∷ [])
    × (build_agent_session 500 750 no_environ (ok (record settings { keys = keys })) "p" "room" true
        ≡ ok built.0)
build_agent_session-models_example =
    build_agent_session-models 500 750 no_environ settings "p" "room" true built.0 keys refl built.1

abbrev shown : Json → String
shown j = "?"

-- A resume whose title is a list.
abbrev resume : Dict Json
resume =
    ("name", json_text "Ada")
    ∷ ("title", json_list (items (json_text "Dr" ∷ [])))
    ∷ ("skills", json_list (items (json_text "COBOL" ∷ [])))
    ∷ []

is_ok-compact_resume_context_example :
    is_ok (compact_resume_context shown loads (dumps (dict resume))) ≡ (
      is_plain (Dict.get "name" (entries (fields resume)))
      && is_plain (Dict.get "title" (entries (fields resume))))
unfolding Dict.has entries fields
is_ok-compact_resume_context_example =
    is_ok-compact_resume_context shown loads (dumps (dict resume)) (fields resume)
      (loads-dumps (dict resume)) refl

abbrev unread : String → Option Json
unread s = none

abbrev prompted :
    (p : String) × (build_interview_system_prompt shown unread
        (some "I know COBOL.")
        (some "Ask.")
        none
      ≡ ok p)
unfolding build_interview_system_prompt
prompted = (_, refl)

build_interview_system_prompt-ends_example :
    (mid : String) × (prompted.0 ≡ header +s mid +s "\n\n" +s "Ask." +s "\n\n" +s boundaries)
    × (str_len mid ≤ 4428)
build_interview_system_prompt-ends_example =
    build_interview_system_prompt-ends shown unread (some "I know COBOL.") (some "Ask.") none
      prompted.0 prompted.1

abbrev spoken : Provider → String → ℕ → Stream
spoken p m n = record { deltas = some "Tell " ∷ some "me." ∷ []; end = none; delay = 3 }

abbrev world : World
world = record {
  env = λ k. some (if k == "DEV_METRICS_ENABLED" then "true" else "key");
  sdk = λ p. none;
  reply = λ p m n. fails (other "none");
  stream = spoken;
  elapsed = λ n. 7;
}

abbrev policies : Policies
policies =
    (
      "voice_interview_turn",
      record {
        chain = record { provider = groq; model = some "m"; timeout = none } ∷ [];
        rationale = "";
      },
    )
    ∷ []

abbrev messages : List Message
messages = record { role = user; text_content = some "I know COBOL."; created_at = 1 } ∷ []

abbrev before : TurnState
before = record {
  gateway = record { breaker = Breaker.init; now = 1000; sent = []; logged = [] };
  files = record { metrics = none; agent = none; snapshot = none };
  memory = Rolling.init;
}
