-- ===== src/Voice/Session.antt =====
-- ai-service/app/voice_agent/session.py. The constructors of the plugins and of livekit's classes are
-- the constructors of data types that keep their arguments; the numbers are those of the settings, with
-- the literals 0.5 and 0.75 as parameters.
pub mod Laws
use hire_os_be.Prelude.{
  ◌&&◌, ◌*◌, ◌+◌, ◌++◌, ◌-◌, ◌/◌, ◌<◌, ◌==◌, [], All, ap, arith, Bool, Bool-cases, drop, eq_iff,
  eq_refl, eqb, false, get_elem?, if◌then◌else◌, inl, inr, is_empty, last_n, leb, length,
  length-append, length-drop, length-last_n-le, length-map, List, ltb, map, none, not, Option,
  Option-cases, refl, some, String, subst, suc, sym, take, take-append-drop, true, zero, ◌||◌, ℕ,
  ◌↔◌, ◌∙◌, ◌∷◌, ◌≡◌, ◌≢◌, ◌≤◌, ◌⊎◌,
}
use hire_os_be.Prelude.{◌>>=◌, ok, raise, Result, truthy}
use text.Mathlib.Text.{starts_with}
use hire_os_be.Voice.Tuning.{SttTtsEntry, VoiceTuningConfig}
use hire_os_be.Voice.Settings.{direct, Environ, environ_get, Keys, VoiceAgentSettings}

-- One speech-to-text client.
pub data SttClient : Type 0 where
  deepgram_stt : (api_key : String) → (diarize : Bool) → (language : Option String) → SttClient
  inference_stt : (model : String) → (language : Option String) → SttClient
  stt_from_model_string : String → SttClient

-- A client, or a `FallbackAdapter` over several.
pub data Stt : Type 0 where
  one_stt : SttClient → Stt
  stt_fallback : List SttClient → Stt

-- `settings.stt_language` where it is set.
abbrev pub language_of : String → Option String
language_of s = if truthy s then some s else none

abbrev pub default_cartesia_voice : String
default_cartesia_voice = "79a125e8-cd45-4c13-8a67-188112f4dd22"

module _ (F : Type 0) where
  pub record VoiceSettings : Type 0 where
    pub stability : F
    pub similarity_boost : F
    pub speed : F

  pub data Extra : Type 0 where
    no_extra : Extra
    with_voice_settings : VoiceSettings → Extra
    with_voice : String → Extra

  pub data TtsClient : Type 0 where
    elevenlabs_tts : (api_key : String) → (model : String) → VoiceSettings → TtsClient
    inference_tts : (model : String) → Extra → TtsClient
    tts_from_model_string : String → TtsClient

  pub data Tts : Type 0 where
    one_tts : TtsClient → Tts
    tts_fallback : List TtsClient → Tts

  pub record TurnHandling : Type 0 where
    pub min_delay : F
    pub max_delay : F
    pub interruptions : Bool
    pub turn_detector : Bool

-- `RoomOptions()`, or with background voice cancellation on the input.
pub data RoomOptions : Type 0 where
  default_options noise_cancelled : RoomOptions

pub data Llm : Type 0 where
  gateway_llm discovery_llm : (system_prompt : String) → (session_label : String) → Llm

module _ {F : Type 0} where
  unfoldable pub turn_handling : VoiceAgentSettings F → TurnHandling F
  turn_handling s = record {
    min_delay = s.endpointing_min_delay_s;
    max_delay = s.endpointing_max_delay_s;
    interruptions = s.interruptions_enabled;
    turn_detector = s.turn_detection_mode == "semantic";
  }

  unfoldable pub build_room_options : VoiceAgentSettings F → RoomOptions
  build_room_options s = if s.noise_cancellation_enabled then noise_cancelled else default_options

  unfoldable pub build_stt : VoiceAgentSettings F → Stt
  build_stt s =
      if s.voice_provider == direct
      then one_stt (deepgram_stt s.keys.deepgram_api_key true (language_of s.stt_language))
      else let primary = inference_stt s.tuning.stt.model (language_of s.stt_language) in
        if is_empty s.tuning.stt.fallback_models
        then one_stt primary
        else stt_fallback (primary ∷ map stt_from_model_string s.tuning.stt.fallback_models)

  module _ (half three_quarters : F) where
    unfoldable pub tts_voice_settings : VoiceAgentSettings F → VoiceSettings F
    tts_voice_settings s = record {
      stability = half;
      similarity_boost = three_quarters;
      speed = s.tts_speed;
    }

    unfoldable pub extra_kwargs : Environ → VoiceAgentSettings F → Extra F
    unfolding tts_voice_settings
    extra_kwargs env s =
        if starts_with s.tuning.tts.model "elevenlabs/"
        then with_voice_settings (tts_voice_settings s)
        else if starts_with s.tuning.tts.model "cartesia/"
        then with_voice (environ_get env "CARTESIA_VOICE_ID" default_cartesia_voice)
        else no_extra

    unfoldable pub build_tts : Environ → VoiceAgentSettings F → Tts F
    unfolding extra_kwargs
    build_tts env s =
        if s.voice_provider == direct
        then one_tts
            (elevenlabs_tts s.keys.elevenlabs_api_key "eleven_flash_v2_5" (tts_voice_settings s))
        else let primary = inference_tts s.tuning.tts.model (extra_kwargs env s) in
          if is_empty s.tuning.tts.fallback_models
          then one_tts primary
          else tts_fallback (primary ∷ map tts_from_model_string s.tuning.tts.fallback_models)

-- The arguments of `AgentSession`; the text transforms are the same in every session.
pub record AgentSession (F : Type 0) : Type 0 where
  pub has_vad : Bool
  pub stt : Stt
  pub llm : Llm
  pub tts : Tts F
  pub turn_handling : TurnHandling F

-- `loaded` is the result of `load_settings`.
module _ {F : Type 0} (half three_quarters : F) (env : Environ)
    (loaded : Result (VoiceAgentSettings F)) where
  abbrev session_with : Llm → Bool → Result (AgentSession F)
  session_with llm has_vad = loaded >>= λ settings. ok (record {
    has_vad = has_vad;
    stt = build_stt settings;
    llm = llm;
    tts = build_tts half three_quarters env settings;
    turn_handling = turn_handling settings;
  })

  unfoldable pub build_agent_session : String → String → Bool → Result (AgentSession F)
  unfolding build_stt build_tts turn_handling
  build_agent_session system_prompt session_label has_vad =
      session_with (gateway_llm system_prompt session_label) has_vad

  unfoldable pub build_discovery_agent_session : String → String → Bool → Result (AgentSession F)
  unfolding build_stt build_tts turn_handling
  build_discovery_agent_session system_prompt session_label has_vad =
      session_with (discovery_llm system_prompt session_label) has_vad
