-- ===== src/Voice/Tuning/Laws.antt =====
-- What a voice tuning file that loads guarantees.
use hire_os_be.Prelude.{◌≢◌}
use hire_os_be.Prelude.{
  ◌-◌, ap, arith, Bool, Bool-cases, false, inl, inr, List, map, none, not, Option, refl, some,
  String, subst, sym, ◌∙◌, ◌≡◌,
}
use hire_os_be.Prelude.{
  ◌>>◌, ◌>>=◌, >>=-eq-ok, Exc, ok, ok-inj, raise, Result, voice_tuning_config_error,
}
use hire_os_be.Voice.Tuning.{
  any_blank, as_voice_tuning_config_error, blank, check_entry, check_llm_entry, entries,
  has_duplicate, load_voice_tuning_config, non_empty_model, parse, Source, SttTtsEntry,
  valid_fallback_models, VoiceTuningConfig,
}

-- A primary model that is not blank, and fallbacks that are not blank and all different.
abbrev pub IsUsable : SttTtsEntry → Type 0
IsUsable e =
    (blank e.model ≡ false)
    × (any_blank e.fallback_models ≡ false)
    × (has_duplicate e.fallback_models ≡ false)

valid_fallback_models-ok :
    (l m : List String)
    → valid_fallback_models l ≡ ok m
    → (m ≡ l) × (any_blank l ≡ false) × (has_duplicate l ≡ false)
unfolding valid_fallback_models
valid_fallback_models-ok l m h = elim (Bool-cases (any_blank l)) [
  | inl e ↦ absurd (ground (arith, rw e at h))
  | inr e ↦ elim (Bool-cases (has_duplicate l)) [
    | inl f ↦ absurd (ground (arith, rw (e, f) at h))
    | inr f ↦ (ground (arith, rw (e, f) at h), e, f)
  ]
]

check_entry-IsUsable : (e r : SttTtsEntry) → check_entry e ≡ ok r → (r ≡ e) × IsUsable r
unfolding check_entry non_empty_model
check_entry-IsUsable e r h = elim (Bool-cases (blank e.model)) [
  | inl b ↦ absurd (ground (arith, rw b at h))
  | inr b ↦
      let (f, v, w) = >>=-eq-ok (valid_fallback_models e.fallback_models) _ (rw b at h) in
      let (same, a, d) = valid_fallback_models-ok e.fallback_models f v in
      let shape : e ≡ r =
        ap (λ l. record { model = e.model; fallback_models = l }) (sym same) ∙ ok-inj w in
      subst (λ x. (x ≡ e) × IsUsable x) shape (refl, (b, a, d))
]

check_llm_entry-IsUsable :
    (o : Option (Option String × List String)) (r : SttTtsEntry)
    → check_llm_entry o ≡ ok r
    → IsUsable r
unfolding check_llm_entry any_blank has_duplicate hire_os_be.Prelude.strip
check_llm_entry-IsUsable none r h = subst IsUsable (ok-inj h) (refl, refl, refl)
check_llm_entry-IsUsable (some (none, fallbacks)) r h =
    let (f, v, w) = >>=-eq-ok (valid_fallback_models fallbacks) _ h in
    let (same, a, d) = valid_fallback_models-ok fallbacks f v in
    subst IsUsable (ok-inj w) (refl, rw same a, rw same d)
check_llm_entry-IsUsable (some (some model, fallbacks)) r h =
    (check_entry-IsUsable (record { model = model; fallback_models = fallbacks }) r h).1

parsed :
    (r : Result VoiceTuningConfig) (c : VoiceTuningConfig)
    → as_voice_tuning_config_error r ≡ ok c
    → r ≡ ok c
parsed (ok x) c h = h
parsed (raise e) c h = cc

raised :
    (r : Result VoiceTuningConfig) (e : Exc)
    → as_voice_tuning_config_error r ≡ raise e
    → e ≡ voice_tuning_config_error
raised (ok x) e h = cc
raised (raise f) e h = cc

-- A voice tuning file that loads names the models that it names in its STT and TTS sections, and
-- every section of the configuration has a primary model that is not blank and fallbacks that are
-- not blank and all different.
pub load_voice_tuning_config-IsUsable :
    (stt tts : SttTtsEntry) (llm : Option (Option String × List String)) (c : VoiceTuningConfig)
    → load_voice_tuning_config (entries stt tts llm) ≡ ok c
    → (c.stt ≡ stt) × (c.tts ≡ tts) × IsUsable c.stt × IsUsable c.tts × IsUsable c.llm
unfolding load_voice_tuning_config parse
load_voice_tuning_config-IsUsable stt tts llm c h =
    let (s, hs, h1) = >>=-eq-ok (check_entry stt) _ (parsed (parse stt tts llm) c h) in
    let (t, ht, h2) = >>=-eq-ok (check_entry tts) _ h1 in
    let (l, hl, h3) = >>=-eq-ok (check_llm_entry llm) _ h2 in
    let (es, us) = check_entry-IsUsable stt s hs in
    let (et, ut) = check_entry-IsUsable tts t ht in
    subst (λ x. (x.stt ≡ stt) × (x.tts ≡ tts) × IsUsable x.stt × IsUsable x.tts × IsUsable x.llm)
      (ok-inj h3) (es, et, us, ut, check_llm_entry-IsUsable llm l hl)

-- Loading a file of UTF-8 text raises only VoiceTuningConfigError.
pub load_voice_tuning_config-raises :
    (source : Source) (e : Exc)
    → source ≢ Source.not_utf8
    → load_voice_tuning_config source ≡ raise e
    → e ≡ voice_tuning_config_error
unfolding load_voice_tuning_config
load_voice_tuning_config-raises Source.unreadable e utf8 h = cc
load_voice_tuning_config-raises Source.not_yaml e utf8 h = cc
load_voice_tuning_config-raises Source.not_a_mapping e utf8 h = cc
load_voice_tuning_config-raises Source.malformed e utf8 h = cc
load_voice_tuning_config-raises Source.not_utf8 e utf8 h = absurd (utf8 refl)
load_voice_tuning_config-raises (entries stt tts llm) e utf8 h = raised (parse stt tts llm) e h
