-- ===== src/Voice/Session/Laws.antt =====
-- The models of a session of ai-service/app/voice_agent/session.py.
use hire_os_be.Prelude.{
  ◌==◌, [], ap, Bool, Bool-cases, false, inl, inr, is_empty, List, map, refl, String, sym, ◌∙◌, ◌∷◌,
  ◌≡◌,
}
use hire_os_be.Prelude.{◌>>=◌, nil_of_empty, ok, ok-inj, raise, Result}
use hire_os_be.Voice.Settings.{direct, Environ, Keys, VoiceAgentSettings}
use hire_os_be.Voice.Session.{
  AgentSession, build_agent_session, build_discovery_agent_session, build_stt, build_tts,
  deepgram_stt, discovery_llm, elevenlabs_tts, extra_kwargs, inference_stt, inference_tts, one_stt,
  one_tts, Stt, stt_fallback, stt_from_model_string, SttClient, Tts, tts_fallback,
  tts_from_model_string, tts_voice_settings, TtsClient, turn_handling,
}

abbrev pub stt_model : SttClient → String
stt_model (deepgram_stt key d l) = "deepgram"
stt_model (inference_stt m l) = m
stt_model (stt_from_model_string m) = m

-- The models that a call tries, in order.
abbrev pub stt_models : Stt → List String
stt_models (one_stt c) = stt_model c ∷ []
stt_models (stt_fallback cs) = map stt_model cs

module _ {F : Type 0} where
  abbrev pub tts_model : TtsClient F → String
  tts_model (elevenlabs_tts key m s) = m
  tts_model (inference_tts m x) = m
  tts_model (tts_from_model_string m) = m

  abbrev pub tts_models : Tts F → List String
  tts_models (one_tts c) = tts_model c ∷ []
  tts_models (tts_fallback cs) = map tts_model cs

stt_model-fallbacks : (l : List String) → map stt_model (map stt_from_model_string l) ≡ l
stt_model-fallbacks [] = refl
stt_model-fallbacks (m ∷ l) = ap (λ r. m ∷ r) (stt_model-fallbacks l)

tts_model-fallbacks :
    (F : Type 0) (l : List String) → map (tts_model {F = F}) (map tts_from_model_string l) ≡ l
tts_model-fallbacks F [] = refl
tts_model-fallbacks F (m ∷ l) = ap (λ r. m ∷ r) (tts_model-fallbacks F l)

module _ {F : Type 0} (half three_quarters : F) (env : Environ) (s : VoiceAgentSettings F) where
  stt_models-build :
      (s.voice_provider == direct) ≡ false
      → stt_models (build_stt s) ≡ s.tuning.stt.model ∷ s.tuning.stt.fallback_models
  unfolding build_stt
  stt_models-build inference = elim (Bool-cases (is_empty s.tuning.stt.fallback_models)) [
    | inl e ↦ rw (inference, e) (ap (λ l. s.tuning.stt.model ∷ l) (sym (nil_of_empty _ e)))
    | inr e ↦ rw (inference, e) (ap (λ l. s.tuning.stt.model ∷ l) (stt_model-fallbacks _))
  ]

  tts_models-build :
      (s.voice_provider == direct) ≡ false
      → tts_models (build_tts half three_quarters env s)
        ≡ s.tuning.tts.model ∷ s.tuning.tts.fallback_models
  unfolding build_tts
  tts_models-build inference = elim (Bool-cases (is_empty s.tuning.tts.fallback_models)) [
    | inl e ↦ rw (inference, e) (ap (λ l. s.tuning.tts.model ∷ l) (sym (nil_of_empty _ e)))
    | inr e ↦ rw (inference, e) (ap (λ l. s.tuning.tts.model ∷ l) (tts_model-fallbacks F _))
  ]

  build_stt-keys :
      (k : Keys)
      → (s.voice_provider == direct) ≡ false
      → build_stt (record s { keys = k }) ≡ build_stt s
  unfolding build_stt
  build_stt-keys k inference = rw inference refl

  build_tts-keys :
      (k : Keys)
      → (s.voice_provider == direct) ≡ false
      → build_tts half three_quarters env (record s { keys = k })
        ≡ build_tts half three_quarters env s
  unfolding build_tts extra_kwargs tts_voice_settings
  build_tts-keys k inference = rw inference refl

  -- Through LiveKit's inference, a session transcribes with the configured model and then its fallback
  -- models in order, speaks with the configured model and then its fallbacks in order, and is the same
  -- whatever vendors' keys the settings hold.
  pub build_agent_session-models :
      (system_prompt session_label : String) (has_vad : Bool) (a : AgentSession F) (k : Keys)
      → (s.voice_provider == direct) ≡ false
      → build_agent_session half three_quarters env (ok s) system_prompt session_label has_vad
        ≡ ok a
      → (stt_models a.stt ≡ s.tuning.stt.model ∷ s.tuning.stt.fallback_models)
        × (tts_models a.tts ≡ s.tuning.tts.model ∷ s.tuning.tts.fallback_models)
        × (build_agent_session half three_quarters env
              (ok (record s { keys = k }))
              system_prompt
              session_label
              has_vad
            ≡ ok a)
  unfolding build_agent_session turn_handling
  build_agent_session-models system_prompt session_label has_vad a k inference built = (
    ap (λ v. stt_models v.stt) (sym (ok-inj built)) ∙ stt_models-build inference,
    ap (λ v. tts_models v.tts) (sym (ok-inj built)) ∙ tts_models-build inference,
    rw (build_stt-keys k inference, build_tts-keys k inference) built,
  )

-- The two personas' sessions differ in the class that drives the conversation, and in nothing else.
build_discovery_agent_session-llm :
    {F : Type 0} (half three_quarters : F) (env : Environ) (loaded : Result (VoiceAgentSettings F))
    → (system_prompt session_label : String) (has_vad : Bool)
    → build_discovery_agent_session half three_quarters env loaded system_prompt session_label
        has_vad
      ≡ (build_agent_session half three_quarters env loaded system_prompt session_label has_vad
          >>= λ a. ok (record a { llm = discovery_llm system_prompt session_label }))
unfolding build_discovery_agent_session build_agent_session
build_discovery_agent_session-llm half three_quarters env (ok s) system_prompt label vad = refl
build_discovery_agent_session-llm half three_quarters env (raise e) system_prompt label vad = refl
