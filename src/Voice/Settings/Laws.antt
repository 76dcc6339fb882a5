-- ===== src/Voice/Settings/Laws.antt =====
-- What settings that load guarantee.
use hire_os_be.Prelude.{
  ◌==◌, ap, arith, Bool, Bool-cases, eq_iff, false, inl, inr, is_empty, List, not, Option,
  Option-cases, refl, some, String, subst, sym, true, ◌∙◌, ◌≡◌, ◌⊎◌,
}
use hire_os_be.Prelude.{
  >>-eq-ok, >>=-eq-ok, Exc, is_set, lower, ok, ok-inj, or_else, raise_if, Result, runtime_error,
  split_comma, strip, truthy,
}
use hire_os_be.Gateway.Provider.{Provider}
use hire_os_be.Voice.Tuning.{VoiceTuningConfig}
use hire_os_be.Voice.Settings.{
  among, Defaults, direct, Environ, environ_get, Keys, load_keys, load_settings, parse_bool,
  parse_llm_provider_priority, parse_positive_float, parse_turn_detection_mode, priority_of,
  providers_of, repeats, require, require_keys, stripped, VoiceAgentSettings,
}

-- The variable is set, and not to the empty text.
abbrev pub IsGiven : Environ → String → String → Type 0
IsGiven env name v = (env name ≡ some v) × (truthy v ≡ true)

require-IsGiven : (env : Environ) (name v : String) → require env name ≡ ok v → IsGiven env name v
unfolding require
require-IsGiven env name v h = elim (Option-cases (env name)) [
  | inl e ↦ absurd (ground (arith, rw (require, e) at h))
  | inr (w, e) ↦ elim (Bool-cases (truthy w)) [
    | inl t ↦
        let same : w ≡ v = ok-inj (rw (require, e, t) at h) in (e ∙ ap some same, rw (← same) t)
    | inr f ↦ absurd (ground (arith, rw (require, e, f) at h))
  ]
]

not_raised : (b : Bool) (e : Exc) → raise_if b e ≡ ok tt → b ≡ false
not_raised true e h = cc
not_raised false e h = refl

parse_turn_detection_mode-ok :
    (env : Environ) (mode : String)
    → parse_turn_detection_mode env ≡ ok mode
    → (mode ≡ "vad") ⊎ (mode ≡ "semantic")
unfolding parse_turn_detection_mode
parse_turn_detection_mode-ok env mode h =
    let raw = lower (strip (environ_get env "VOICE_TURN_DETECTION_MODE" "")) in
    elim (Bool-cases (not (truthy raw))) [
      | inl e ↦ inl (sym (ok-inj (rw e at h)))
      | inr e ↦ elim (Bool-cases (raw == "vad")) [
        | inl v ↦ inl (sym (ok-inj (rw (e, v) at h)) ∙ (eq_iff raw "vad").0 v)
        | inr v ↦ elim (Bool-cases (raw == "semantic")) [
          | inl s ↦ inr (sym (ok-inj (rw (e, v, s) at h)) ∙ (eq_iff raw "semantic").0 s)
          | inr s ↦ absurd (ground (arith, rw (e, v, s) at h))
        ]
      ]
    ]

priority_of-ok :
    (raw : String) (ps : List Provider) → priority_of raw ≡ ok ps → (repeats ps ≡ false)
unfolding priority_of
priority_of-ok raw ps h =
    let (some_name, h1) =
      >>-eq-ok
        (raise_if (is_empty (stripped (split_comma raw)))
          (runtime_error "VOICE_LLM_PROVIDER_PRIORITY"))
        _ h in
    let (l, named, h2) = >>=-eq-ok (providers_of (stripped (split_comma raw))) _ h1 in
    let (distinct, h3) =
      >>-eq-ok (raise_if (repeats l) (runtime_error "VOICE_LLM_PROVIDER_PRIORITY")) _ h2 in
    subst (λ x. repeats x ≡ false) (ok-inj h3) (not_raised (repeats l) _ distinct)

parse_llm_provider_priority-ok :
    (env : Environ) (ps : List Provider)
    → parse_llm_provider_priority env ≡ ok ps
    → repeats ps ≡ false
unfolding parse_llm_provider_priority repeats among
parse_llm_provider_priority-ok env ps h =
    elim (Bool-cases (is_set (env "VOICE_LLM_PROVIDER_PRIORITY"))) [
      | inl given ↦
          priority_of-ok (or_else (env "VOICE_LLM_PROVIDER_PRIORITY") "") ps (rw given at h)
      | inr unset ↦ subst (λ x. repeats x ≡ false) (ok-inj (rw unset at h)) refl
    ]

module _ {F : Type 0} (to_float : String → Option F) (at_most_zero : F → Bool) where
  parse_positive_float-ok :
      (env : Environ) (name : String) (default v : F)
      → at_most_zero default ≡ false
      → parse_positive_float to_float at_most_zero env name default ≡ ok v
      → at_most_zero v ≡ false
  unfolding parse_positive_float
  parse_positive_float-ok env name default v d h = elim (Bool-cases (is_set (env name))) [
    | inr unset ↦ subst (λ x. at_most_zero x ≡ false) (ok-inj (rw unset at h)) d
    | inl given ↦ elim (Option-cases (to_float (or_else (env name) ""))) [
      | inl e ↦ absurd (ground (arith, rw (given, e) at h))
      | inr (w, e) ↦ elim (Bool-cases (at_most_zero w)) [
        | inl low ↦ absurd (ground (arith, rw (given, e, low) at h))
        | inr high ↦ subst (λ x. at_most_zero x ≡ false) (ok-inj (rw (given, e, high) at h)) high
      ]
    ]
  ]

-- The keys of the direct mode.
abbrev pub HasKeys : Environ → Keys → Type 0
HasKeys env k =
    IsGiven env "DEEPGRAM_API_KEY" k.deepgram_api_key
    × IsGiven env "ELEVENLABS_API_KEY" k.elevenlabs_api_key
    × IsGiven env "GEMINI_API_KEY" k.gemini_api_key

load_keys-HasKeys : (env : Environ) (k : Keys) → load_keys env direct ≡ ok k → HasKeys env k
unfolding load_keys require_keys
load_keys-HasKeys env k h =
    let (d, hd, h1) = >>=-eq-ok (require env "DEEPGRAM_API_KEY") _ h in
    let (e, he, h2) = >>=-eq-ok (require env "ELEVENLABS_API_KEY") _ h1 in
    let (g, hg, h3) = >>=-eq-ok (require env "GEMINI_API_KEY") _ h2 in
    subst (HasKeys env) (ok-inj h3) (
      require-IsGiven env "DEEPGRAM_API_KEY" d hd,
      require-IsGiven env "ELEVENLABS_API_KEY" e he,
      require-IsGiven env "GEMINI_API_KEY" g hg,
    )

-- Settings that the worker can run on.
pub record IsValid {F : Type 0} (at_most_zero : F → Bool) (env : Environ) (s : VoiceAgentSettings F)
    : Type 0 where
  pub url : IsGiven env "LIVEKIT_URL" s.livekit_url
  pub key : IsGiven env "LIVEKIT_API_KEY" s.livekit_api_key
  pub secret : IsGiven env "LIVEKIT_API_SECRET" s.livekit_api_secret
  pub platform : IsGiven env "PLATFORM_INTERNAL_URL" s.platform_internal_url
  pub service : IsGiven env "INTERNAL_SERVICE_SECRET" s.internal_service_secret
  pub vendors : s.voice_provider ≡ direct → HasKeys env s.keys
  pub priority : repeats s.llm_provider_priority ≡ false
  pub mode : (s.turn_detection_mode ≡ "vad") ⊎ (s.turn_detection_mode ≡ "semantic")
  pub speed : at_most_zero s.tts_speed ≡ false
  pub min_delay : at_most_zero s.endpointing_min_delay_s ≡ false
  pub max_delay : at_most_zero s.endpointing_max_delay_s ≡ false

module _ {F : Type 0} (to_float : String → Option F) (at_most_zero : F → Bool) where
  -- Settings that load are valid, if the defaults of the three numbers are positive: the required
  -- variables are set and not empty, in the direct mode the three vendors' keys, too; the provider
  -- priority names no provider twice, the turn detection mode is one of the two, and the numbers are
  -- positive.
  pub load_settings-IsValid :
      (defaults : Defaults) (read_tuning : String → Result VoiceTuningConfig) (speed min max : F)
      (env : Environ) (s : VoiceAgentSettings F)
      → at_most_zero speed ≡ false
      → at_most_zero min ≡ false
      → at_most_zero max ≡ false
      → load_settings to_float at_most_zero defaults read_tuning speed min max env ≡ ok s
      → IsValid at_most_zero env s
  unfolding load_settings
  load_settings-IsValid defaults read_tuning speed min max env s p1 p2 p3 h =
      let positive = parse_positive_float-ok to_float at_most_zero env in
      let (keys, q0, h0) =
        >>=-eq-ok (load_keys env (environ_get env "VOICE_PROVIDER" direct)) _ h in
      let (tuning, q1, h1) =
        >>=-eq-ok
          (read_tuning
            (environ_get env "VOICE_TUNING_CONFIG_PATH" defaults.voice_tuning_config_path))
          _ h0 in
      let (url, q2, h2) = >>=-eq-ok (require env "LIVEKIT_URL") _ h1 in
      let (key, q3, h3) = >>=-eq-ok (require env "LIVEKIT_API_KEY") _ h2 in
      let (secret, q4, h4) = >>=-eq-ok (require env "LIVEKIT_API_SECRET") _ h3 in
      let (priority, q5, h5) = >>=-eq-ok (parse_llm_provider_priority env) _ h4 in
      let (rate, q6, h6) =
        >>=-eq-ok (parse_positive_float to_float at_most_zero env "VOICE_TTS_SPEED" speed) _ h5 in
      let (low, q7, h7) =
        >>=-eq-ok
          (parse_positive_float to_float at_most_zero env "VOICE_ENDPOINTING_MIN_DELAY_S" min) _
          h6 in
      let (high, q8, h8) =
        >>=-eq-ok
          (parse_positive_float to_float at_most_zero env "VOICE_ENDPOINTING_MAX_DELAY_S" max) _
          h7 in
      let (interrupts, q9, h9) =
        >>=-eq-ok (parse_bool env "VOICE_INTERRUPTIONS_ENABLED" true) _ h8 in
      let (mode, q10, h10) = >>=-eq-ok (parse_turn_detection_mode env) _ h9 in
      let (noise, q11, h11) =
        >>=-eq-ok (parse_bool env "VOICE_NOISE_CANCELLATION_ENABLED" true) _ h10 in
      let (platform, q12, h12) = >>=-eq-ok (require env "PLATFORM_INTERNAL_URL") _ h11 in
      let (service, q13, h13) = >>=-eq-ok (require env "INTERNAL_SERVICE_SECRET") _ h12 in
      subst (IsValid at_most_zero env) (ok-inj h13) (record {
        url = require-IsGiven env "LIVEKIT_URL" url q2;
        key = require-IsGiven env "LIVEKIT_API_KEY" key q3;
        secret = require-IsGiven env "LIVEKIT_API_SECRET" secret q4;
        platform = require-IsGiven env "PLATFORM_INTERNAL_URL" platform q12;
        service = require-IsGiven env "INTERNAL_SERVICE_SECRET" service q13;
        vendors = λ e. load_keys-HasKeys env keys (rw e at q0);
        priority = parse_llm_provider_priority-ok env priority q5;
        mode = parse_turn_detection_mode-ok env mode q10;
        speed = positive "VOICE_TTS_SPEED" speed rate p1 q6;
        min_delay = positive "VOICE_ENDPOINTING_MIN_DELAY_S" min low p2 q7;
        max_delay = positive "VOICE_ENDPOINTING_MAX_DELAY_S" max high p3 q8;
      })
