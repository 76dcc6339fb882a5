-- ===== src/Voice/Worker/StartTests.antt =====
-- Starts of the worker: its settings, its tuning and its routing file.
use hire_os_be.Prelude.{
  ◌&&◌, ◌+◌, ◌++◌, ◌-◌, ◌/◌, ◌<◌, ◌==◌, [], ap, arith, Bool, eqb, false, if◌then◌else◌, length,
  List, map, none, not, Option, refl, some, String, suc, true, zero, ℕ, ◌∷◌, ◌≡◌, ◌≢◌, ◌≤◌,
}
use hire_os_be.Prelude.{
  ◌+s◌, key_error, member, ok, or_else, raise, Result, routing_config_error, str_len,
}
use hire_os_be.Prelude.Dict
use hire_os_be.Prelude.Dict.{Dict}
use hire_os_be.Prelude.Int.{fraction, pos}
use hire_os_be.Gateway.Provider.{gemini, groq, Provider}
use hire_os_be.Gateway.Policy.{get_policy, Policies, Timeout, UseCasePolicy}
use hire_os_be.Gateway.Routing.{
  load_routing_config, not_yaml, required_use_cases, Source, use_cases, UseCasePolicyEntry,
}
use hire_os_be.Voice.Delivery.{flush_pending, Outbox, payload, Reply, status, unreadable}
use hire_os_be.Voice.Worker.Reload.{Inference, Process, reload_routing_config_if_changed, st_mtime}
use hire_os_be.Voice.Worker.Reload.Laws.{IsServed, reload-forgets, reload-serves}
use hire_os_be.Prelude.{is_ok, leb}
use hire_os_be.Voice.Settings.{Defaults, Environ, load_settings, VoiceAgentSettings}
use hire_os_be.Voice.Settings.Laws.{IsValid, load_settings-IsValid}
use hire_os_be.Voice.Tuning.{load_voice_tuning_config, SttTtsEntry, VoiceTuningConfig}
use hire_os_be.Voice.Tuning.Laws.{IsUsable, load_voice_tuning_config-IsUsable}
use hire_os_be.Gateway.Policy.{ProviderChoice}
use hire_os_be.Prelude.{other}
use hire_os_be.Voice.Worker.Main.{inference_of, main, Supervisor}
use hire_os_be.Voice.Worker.Main.Laws.{main-serves}

abbrev platform : String → String → Reply
platform id text = if id == "s1" then status 201 else status 503

abbrev outbox : Outbox
outbox = record {
  files = ("s0", payload "p0") ∷ ("s1", payload "p1") ∷ ("s2", unreadable) ∷ [];
  posted = [];
}

abbrev eight_seconds : Timeout
eight_seconds = record { seconds = fraction (pos 8) 0; deadline = 8000 }

abbrev entry : UseCasePolicyEntry
entry = record {
  chain = record { provider = "groq"; model = "m"; timeout = some eight_seconds } ∷ [];
  rationale = "";
}

abbrev source : Source
source = use_cases (map (λ u. (u, entry)) required_use_cases)

abbrev loaded : Policies
loaded =
    map
      (λ u. (
        u,
        record {
          chain = record { provider = groq; model = some "m"; timeout = some eight_seconds } ∷ [];
          rationale = "";
        },
      ))
      required_use_cases

abbrev process : Process
process = record { policies = loaded; mtime = some 5 }

abbrev inference_mode : Option Inference
inference_mode = some (record { primary = "a"; fallbacks = "b" ∷ []; rationale = "" })

reload-serves_example :
    let (after, result) =
      reload_routing_config_if_changed (st_mtime 6) source (gemini ∷ []) inference_mode process in
    (result ≡ ok tt)
    × (after.mtime ≡ some 6)
    × (from : UseCasePolicy) × (now : UseCasePolicy) × (Dict.get "voice_interview_turn" loaded
        ≡ some from)
    × (Dict.get "voice_interview_turn" after.policies ≡ some now)
    × IsServed (gemini ∷ []) inference_mode from now
unfolding load_routing_config hire_os_be.Gateway.Provider.of_value Dict.has
reload-serves_example =
    reload-serves 6 source (gemini ∷ []) inference_mode process loaded "voice_interview_turn" refl
      refl refl

reload-forgets_example :
    let broken =
      reload_routing_config_if_changed (st_mtime 6) not_yaml (gemini ∷ []) none process in
    let after = reload_routing_config_if_changed (st_mtime 5) source (gemini ∷ []) none broken.0 in
    (broken.1 ≡ raise routing_config_error)
    × (after.1 ≡ ok tt)
    × (get_policy "voice_interview_turn" after.0.policies
        ≡ raise (key_error "voice_interview_turn"))
unfolding load_routing_config
reload-forgets_example =
    reload-forgets 6 5 not_yaml source (gemini ∷ []) none process routing_config_error
      "voice_interview_turn" refl refl refl

abbrev speech : SttTtsEntry
speech = record { model = "deepgram/nova-3"; fallback_models = "cartesia/ink" ∷ [] }

abbrev tuned : VoiceTuningConfig
tuned = record {
  stt = speech;
  tts = speech;
  llm = record { model = "google/gemini-2.5-flash-lite"; fallback_models = [] };
}

load_voice_tuning_config-IsUsable_example :
    (tuned.stt ≡ speech)
    × (tuned.tts ≡ speech)
    × IsUsable tuned.stt
    × IsUsable tuned.tts
    × IsUsable tuned.llm
unfolding load_voice_tuning_config hire_os_be.Prelude.strip
load_voice_tuning_config-IsUsable_example =
    load_voice_tuning_config-IsUsable speech speech none tuned refl

abbrev environ : Environ
environ name =
    if member name (
      "DEEPGRAM_API_KEY" ∷ "ELEVENLABS_API_KEY" ∷ "GEMINI_API_KEY" ∷ "LIVEKIT_URL"
      ∷ "LIVEKIT_API_KEY" ∷ "LIVEKIT_API_SECRET" ∷ "PLATFORM_INTERNAL_URL"
      ∷ "INTERNAL_SERVICE_SECRET" ∷ [])
    then some "k"
    else none

abbrev to_float : String → Option ℕ
to_float s = none

abbrev is_zero : ℕ → Bool
is_zero n = eqb n 0

abbrev paths : Defaults
paths = record { routing_config_path = "r"; voice_tuning_config_path = "v" }

abbrev settings : VoiceAgentSettings ℕ
settings = record {
  livekit_url = "k";
  livekit_api_key = "k";
  livekit_api_secret = "k";
  voice_provider = "direct";
  keys = record { deepgram_api_key = "k"; elevenlabs_api_key = "k"; gemini_api_key = "k" };
  llm_provider_priority = Provider.openrouter ∷ gemini ∷ groq ∷ [];
  routing_config_path = "r";
  voice_tuning_config_path = "v";
  tts_speed = 900;
  endpointing_min_delay_s = 500;
  endpointing_max_delay_s = 3000;
  interruptions_enabled = true;
  turn_detection_mode = "vad";
  stt_language = "en";
  tuning = tuned;
  noise_cancellation_enabled = true;
  platform_internal_url = "k";
  internal_service_secret = "k";
}

load_settings-IsValid_example : IsValid is_zero environ settings
unfolding load_settings hire_os_be.Prelude.lower hire_os_be.Prelude.strip
load_settings-IsValid_example =
    load_settings-IsValid to_float is_zero paths (λ path. ok tuned) 900 500 3000 environ settings
      refl refl refl refl

abbrev supervisor : Supervisor
supervisor = record { process = record { policies = []; mtime = none }; outbox = outbox }

main-serves_example :
    let after = (main (ok settings) (st_mtime 6) source "" (λ d. d) platform supervisor).1 in
    (loaded : Policies) × (from : UseCasePolicy) × (now : UseCasePolicy) × (load_routing_config
        source
      ≡ ok loaded)
    × (after.process.mtime ≡ some 6)
    × ((flush_pending (λ d. d) platform outbox).0 ≡ ok tt)
    × (after.outbox ≡ (flush_pending (λ d. d) platform outbox).1)
    × (Dict.get "role_discovery_turn" loaded ≡ some from)
    × (Dict.get "role_discovery_turn" after.process.policies ≡ some now)
    × IsServed settings.llm_provider_priority (inference_of "" settings) from now
unfolding main load_routing_config hire_os_be.Gateway.Provider.of_value Dict.has
    hire_os_be.Gateway.Policy.apply_provider_priority Dict.get Dict.put
main-serves_example =
    main-serves settings 6 source "" (λ d. d) platform supervisor "role_discovery_turn" refl refl
      refl
