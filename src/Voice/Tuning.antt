-- ===== src/Voice/Tuning.antt =====
-- ai-service/app/voice_agent/voice_tuning_config.py. Reading the file and parsing YAML into values of
-- the declared field types are libraries': a `Source` is what they answer.
pub mod Laws
use hire_os_be.Prelude.{◌>>◌, ◌>>=◌}
use hire_os_be.Prelude.{
  ◌-◌, ◌/◌, [], ap, Bool, false, if◌then◌else◌, List, map, none, not, Option, some, String, ◌||◌,
  ◌∷◌,
}
use hire_os_be.Prelude.{
  member, ok, other, raise, raise_if, Result, strip, truthy, value_error, voice_tuning_config_error,
}

pub record SttTtsEntry : Type 0 where
  pub model : String
  pub fallback_models : List String

-- `malformed`: a missing, extra or ill-typed field. The `llm` section may be left out, and its model.
-- `not_utf8` raises UnicodeDecodeError when it is read, which nothing catches.
pub data Source : Type 0 where
  unreadable not_utf8 not_yaml not_a_mapping malformed : Source
  entries : SttTtsEntry → SttTtsEntry → Option (Option String × List String) → Source

abbrev pub blank : String → Bool
blank s = not (truthy (strip s))

unfoldable pub any_blank : List String → Bool
any_blank [] = false
any_blank (m ∷ l) = blank m || any_blank l

-- `len(set(value)) != len(value)`
unfoldable pub has_duplicate : List String → Bool
has_duplicate [] = false
has_duplicate (m ∷ l) = member m l || has_duplicate l

unfoldable pub non_empty_model : String → Result String
non_empty_model value = do raise_if (blank value) (value_error "model must not be empty"); ok value

unfoldable pub valid_fallback_models : List String → Result (List String)
unfolding any_blank has_duplicate
valid_fallback_models value = do
  raise_if (any_blank value) (value_error "fallback_models entries must not be empty")
  raise_if (has_duplicate value) (value_error "fallback_models has a duplicate entry")
  ok value

unfoldable pub check_entry : SttTtsEntry → Result SttTtsEntry
unfolding non_empty_model valid_fallback_models
check_entry e = do
  m ← non_empty_model e.model
  f ← valid_fallback_models e.fallback_models
  ok (record { model = m; fallback_models = f })

abbrev pub default_llm_model : String
default_llm_model = "google/gemini-2.5-flash-lite"

-- `_LlmEntry`, which has the same validators; a default is not validated.
unfoldable pub check_llm_entry : Option (Option String × List String) → Result SttTtsEntry
unfolding check_entry valid_fallback_models
check_llm_entry none = ok (record { model = default_llm_model; fallback_models = [] })
check_llm_entry (some (none, fallbacks)) = do
  f ← valid_fallback_models fallbacks
  ok (record { model = default_llm_model; fallback_models = f })
check_llm_entry (some (some model, fallbacks)) =
    check_entry (record { model = model; fallback_models = fallbacks })

pub record VoiceTuningConfig : Type 0 where
  pub stt : SttTtsEntry
  pub tts : SttTtsEntry
  pub llm : SttTtsEntry

unfoldable pub parse :
    SttTtsEntry → SttTtsEntry → Option (Option String × List String) → Result VoiceTuningConfig
unfolding check_entry check_llm_entry
parse stt tts llm = do
  s ← check_entry stt
  t ← check_entry tts
  l ← check_llm_entry llm
  ok (record { stt = s; tts = t; llm = l })

-- `except Exception as exc: raise VoiceTuningConfigError`
abbrev pub as_voice_tuning_config_error : Result VoiceTuningConfig → Result VoiceTuningConfig
as_voice_tuning_config_error (ok c) = ok c
as_voice_tuning_config_error (raise e) = raise voice_tuning_config_error

unfoldable pub load_voice_tuning_config : Source → Result VoiceTuningConfig
unfolding parse
load_voice_tuning_config (entries stt tts llm) = as_voice_tuning_config_error (parse stt tts llm)
load_voice_tuning_config not_utf8 = raise (other "UnicodeDecodeError")
load_voice_tuning_config _ = raise voice_tuning_config_error
