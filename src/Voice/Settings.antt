-- ===== src/Voice/Settings.antt =====
-- ai-service/app/voice_agent/config.py. The environment is a function. `float`, which parses a number,
-- is the language's: its type, the parser and the test `value <= 0` are parameters.
pub mod Laws
use hire_os_be.Prelude.{
  ◌==◌, [], ap, Bool, false, if◌then◌else◌, is_empty, List, none, not, Option, some, String, true,
  zero, ◌||◌, ◌∷◌,
}
use hire_os_be.Prelude.{
  ◌>>◌, ◌>>=◌, is_set, lower, ok, or_else, raise, raise_if, Result, runtime_error, split_comma,
  strip, truthy,
}
use hire_os_be.Gateway.Provider.{gemini, groq, of_value, openrouter, Provider, same}
use hire_os_be.Voice.Tuning.{VoiceTuningConfig}

abbrev pub Environ : Type 0
Environ = String → Option String

-- `os.environ.get(name, default)`
abbrev pub environ_get : Environ → String → String → String
environ_get env name default = elim (env name) [ none ↦ default | some v ↦ v ]

unfoldable pub require : Environ → String → Result String
require env name = elim (env name) [
  | none ↦ raise (runtime_error name)
  | some value ↦ if truthy value then ok value else raise (runtime_error name)
]

unfoldable pub parse_turn_detection_mode : Environ → Result String
parse_turn_detection_mode env =
    let raw = lower (strip (environ_get env "VOICE_TURN_DETECTION_MODE" "")) in
    if not (truthy raw)
    then ok "vad"
    else if raw == "vad" || raw == "semantic"
    then ok raw
    else raise (runtime_error "VOICE_TURN_DETECTION_MODE")

unfoldable pub bool_of : String → String → Result Bool
bool_of name normalized =
    if normalized == "true" || normalized == "1" || normalized == "yes"
    then ok true
    else if normalized == "false" || normalized == "0" || normalized == "no"
    then ok false
    else raise (runtime_error name)

unfoldable pub parse_bool : Environ → String → Bool → Result Bool
unfolding bool_of
parse_bool env name default =
    if is_set (env name) then bool_of name (lower (strip (or_else (env name) ""))) else ok default

-- `[name.strip() for name in raw.split(",") if name.strip()]`
unfoldable pub stripped : List String → List String
stripped [] = []
stripped (name ∷ l) =
    let rest = stripped l in if truthy (strip name) then strip name ∷ rest else rest

unfoldable pub providers_of : List String → Result (List Provider)
providers_of [] = ok []
providers_of (name ∷ l) =
    let rest = providers_of l in
    elim (of_value name) [
      | none ↦ raise (runtime_error "VOICE_LLM_PROVIDER_PRIORITY")
      | some p ↦ rest >>= λ ps. ok (p ∷ ps)
    ]

unfoldable pub among : Provider → List Provider → Bool
among p [] = false
among p (q ∷ l) = same q p || among p l

-- `len(set(providers)) != len(providers)`
unfoldable pub repeats : List Provider → Bool
unfolding among
repeats [] = false
repeats (p ∷ l) = among p l || repeats l

abbrev pub default_llm_provider_priority : List Provider
default_llm_provider_priority = openrouter ∷ gemini ∷ groq ∷ []

unfoldable pub priority_of : String → Result (List Provider)
unfolding stripped providers_of repeats
priority_of raw = do
  raise_if (is_empty (stripped (split_comma raw))) (runtime_error "VOICE_LLM_PROVIDER_PRIORITY")
  providers ← providers_of (stripped (split_comma raw))
  raise_if (repeats providers) (runtime_error "VOICE_LLM_PROVIDER_PRIORITY")
  ok providers

unfoldable pub parse_llm_provider_priority : Environ → Result (List Provider)
unfolding priority_of
parse_llm_provider_priority env =
    if is_set (env "VOICE_LLM_PROVIDER_PRIORITY")
    then priority_of (or_else (env "VOICE_LLM_PROVIDER_PRIORITY") "")
    else ok default_llm_provider_priority

-- What `load_settings` reads besides the environment.
pub record Defaults : Type 0 where
  pub routing_config_path : String
  pub voice_tuning_config_path : String

pub record Keys : Type 0 where
  pub deepgram_api_key : String
  pub elevenlabs_api_key : String
  pub gemini_api_key : String

abbrev pub direct : String
direct = "direct"

abbrev pub livekit_inference_mode : String
livekit_inference_mode = "livekit_inference"

-- The vendors' keys, which the direct mode requires.
unfoldable pub require_keys : Environ → Result Keys
unfolding require
require_keys env = do
  d ← require env "DEEPGRAM_API_KEY"
  e ← require env "ELEVENLABS_API_KEY"
  g ← require env "GEMINI_API_KEY"
  ok (record { deepgram_api_key = d; elevenlabs_api_key = e; gemini_api_key = g })

unfoldable pub load_keys : Environ → String → Result Keys
unfolding require_keys
load_keys env voice_provider =
    if voice_provider == direct
    then require_keys env
    else ok (record {
      deepgram_api_key = environ_get env "DEEPGRAM_API_KEY" "";
      elevenlabs_api_key = environ_get env "ELEVENLABS_API_KEY" "";
      gemini_api_key = environ_get env "GEMINI_API_KEY" "";
    })

pub record VoiceAgentSettings (F : Type 0) : Type 0 where
  pub livekit_url : String
  pub livekit_api_key : String
  pub livekit_api_secret : String
  pub voice_provider : String
  pub keys : Keys
  pub llm_provider_priority : List Provider
  pub routing_config_path : String
  pub voice_tuning_config_path : String
  pub tts_speed : F
  pub endpointing_min_delay_s : F
  pub endpointing_max_delay_s : F
  pub interruptions_enabled : Bool
  pub turn_detection_mode : String
  pub stt_language : String
  pub tuning : VoiceTuningConfig
  pub noise_cancellation_enabled : Bool
  pub platform_internal_url : String
  pub internal_service_secret : String

module _ {F : Type 0} (to_float : String → Option F) (at_most_zero : F → Bool) where
  unfoldable pub parse_positive_float : Environ → String → F → Result F
  parse_positive_float env name default =
      if is_set (env name)
      then (elim (to_float (or_else (env name) "")) [
        | none ↦ raise (runtime_error name)
        | some value ↦ if at_most_zero value then raise (runtime_error name) else ok value
      ])
      else ok default

  -- `read_tuning` is `load_voice_tuning_config` on the file at a path; the last three arguments are
  -- the defaults 0.9, 0.5 and 3.0.
  unfoldable pub load_settings :
      Defaults
      → (String → Result VoiceTuningConfig)
      → F
      → F
      → F
      → Environ
      → Result (VoiceAgentSettings F)
  unfolding load_keys require parse_positive_float parse_bool parse_turn_detection_mode
      parse_llm_provider_priority
  load_settings defaults read_tuning speed min_delay max_delay env = do
    keys ← load_keys env (environ_get env "VOICE_PROVIDER" direct)
    tuning ←
        read_tuning (environ_get env "VOICE_TUNING_CONFIG_PATH" defaults.voice_tuning_config_path)
    url ← require env "LIVEKIT_URL"
    key ← require env "LIVEKIT_API_KEY"
    secret ← require env "LIVEKIT_API_SECRET"
    priority ← parse_llm_provider_priority env
    tts_speed ← parse_positive_float env "VOICE_TTS_SPEED" speed
    min_delay_s ← parse_positive_float env "VOICE_ENDPOINTING_MIN_DELAY_S" min_delay
    max_delay_s ← parse_positive_float env "VOICE_ENDPOINTING_MAX_DELAY_S" max_delay
    interruptions ← parse_bool env "VOICE_INTERRUPTIONS_ENABLED" true
    mode ← parse_turn_detection_mode env
    noise ← parse_bool env "VOICE_NOISE_CANCELLATION_ENABLED" true
    platform ← require env "PLATFORM_INTERNAL_URL"
    service ← require env "INTERNAL_SERVICE_SECRET"
    ok (record {
      livekit_url = url;
      livekit_api_key = key;
      livekit_api_secret = secret;
      voice_provider = environ_get env "VOICE_PROVIDER" direct;
      keys = keys;
      llm_provider_priority = priority;
      routing_config_path = environ_get env "ROUTING_CONFIG_PATH" defaults.routing_config_path;
      voice_tuning_config_path =
          environ_get env "VOICE_TUNING_CONFIG_PATH" defaults.voice_tuning_config_path;
      tts_speed = tts_speed;
      endpointing_min_delay_s = min_delay_s;
      endpointing_max_delay_s = max_delay_s;
      interruptions_enabled = interruptions;
      turn_detection_mode = mode;
      stt_language = environ_get env "STT_LANGUAGE" "en";
      tuning = tuning;
      noise_cancellation_enabled = noise;
      platform_internal_url = platform;
      internal_service_secret = service;
    })
