-- ===== src/Voice/Latency.antt =====
-- `SpeechToSpeechCorrelator` of ai-service/app/voice_agent/latency_metrics.py, and the listener of
-- dev_metrics.py that feeds it. Times are in milliseconds.
pub mod Laws
use hire_os_be.Prelude.{
  ◌+◌, ◌++◌, [], ap, if◌then◌else◌, leb, length, List, none, Option, some, String, ℕ, ◌∷◌,
}
use hire_os_be.Prelude.Dict
use hire_os_be.Prelude.Dict.{Dict}

abbrev pub max_pending : ℕ
max_pending = 20

-- `next(iter(d))` and its deletion: the entry that was added first.
abbrev pub evict : Dict ℕ → Dict ℕ
evict [] = []
evict (oldest ∷ d) = d

unfoldable pub on_eou : Option String → ℕ → Dict ℕ → Dict ℕ
unfolding Dict.put
on_eou none timestamp pending = pending
on_eou (some speech_id) timestamp pending =
    Dict.put speech_id timestamp
      (if leb max_pending (length pending) then evict pending else pending)

-- The record that `append_agent_metric` gets; its latency is what to subtract from what.
pub record SpeechToSpeech : Type 0 where
  pub speech_id : String
  pub audio_ts : ℕ
  pub eou_ts : ℕ

unfoldable pub on_tts : Option String → ℕ → ℕ → Dict ℕ → Dict ℕ × Option SpeechToSpeech
unfolding Dict.get Dict.remove
on_tts none timestamp ttfb pending = (pending, none)
on_tts (some speech_id) timestamp ttfb pending = (
  Dict.remove speech_id pending,
  elim (Dict.get speech_id pending) [
    | none ↦ none
    | some eou_ts ↦
        some (record { speech_id = speech_id; audio_ts = timestamp + ttfb; eou_ts = eou_ts })
  ],
)

-- The metrics that the framework emits, as far as they are told apart.
pub data Metrics : Type 0 where
  eou : Option String → ℕ → Metrics
  tts : Option String → ℕ → ℕ → Metrics
  captured other : String → Metrics

-- What is appended to the agents' metrics file.
pub data Appended : Type 0 where
  speech_to_speech : SpeechToSpeech → Appended
  collected : String → Metrics → Appended

abbrev pub report : Option SpeechToSpeech → List Appended
report none = []
report (some s) = speech_to_speech s ∷ []

-- `_on_metrics_collected`
unfoldable pub on_metrics_collected : String → Metrics → Dict ℕ → Dict ℕ × List Appended
unfolding on_eou on_tts
on_metrics_collected session (eou id t) pending =
    (on_eou id t pending, collected session (eou id t) ∷ [])
on_metrics_collected session (tts id t f) pending =
    let (rest, s) = on_tts id t f pending in (rest, report s ++ collected session (tts id t f) ∷ [])
on_metrics_collected session (captured type) pending =
    (pending, collected session (captured type) ∷ [])
on_metrics_collected session (other type) pending = (pending, [])

unfoldable pub on_all_metrics : String → List Metrics → Dict ℕ → Dict ℕ × List Appended
unfolding on_metrics_collected
on_all_metrics session [] pending = (pending, [])
on_all_metrics session (m ∷ more) pending =
    let (mid, first) = on_metrics_collected session m pending in
    let (last, rest) = on_all_metrics session more mid in (last, first ++ rest)
