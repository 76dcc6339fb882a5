-- ===== src/Voice/Worker/Main.antt =====
-- `main` of ai-service/app/voice_agent/worker.py up to the start of the framework. The arguments are what
-- `load_settings`, the routing file, the file system and the platform answer; `rationale` is the text
-- that the inference mode writes.
pub mod Laws
use hire_os_be.Prelude.{
  ◌&&◌, ◌*◌, ◌+◌, ◌++◌, ◌-◌, ◌/◌, ◌<◌, ◌==◌, [], All, ap, arith, Bool, Bool-cases, drop, eq_iff,
  eq_refl, eqb, false, get_elem?, if◌then◌else◌, inl, inr, is_empty, last_n, leb, length,
  length-append, length-drop, length-last_n-le, length-map, List, ltb, map, none, not, Option,
  Option-cases, refl, some, String, subst, suc, sym, take, take-append-drop, true, zero, ◌||◌, ℕ,
  ◌↔◌, ◌∙◌, ◌∷◌, ◌≡◌, ◌≢◌, ◌≤◌, ◌⊎◌,
}
use hire_os_be.Prelude.{Exc, ok, raise, Result}
use hire_os_be.Prelude.Dict.{Dict}
use hire_os_be.Gateway.Routing.{Source}
use hire_os_be.Voice.Delivery.{File, flush_pending, Outbox, Reply}
use hire_os_be.Voice.Settings.{livekit_inference_mode, VoiceAgentSettings}
use hire_os_be.Voice.Worker.Reload.{Inference, Process, reload_routing_config_if_changed, Stat}

-- The supervisor process.
pub record Supervisor : Type 0 where
  pub process : Process
  pub outbox : Outbox

-- The flush of the outbox, unless the reload raised.
abbrev pub then_flush :
    (Dict File → Dict File)
    → (String → String → Reply)
    → Supervisor
    → Process × Result (Unit {0})
    → Result (Unit {0}) × Supervisor
then_flush sorted platform s (p, raise e) = (raise e, record s { process = p })
then_flush sorted platform s (p, ok u) =
    let flushed = flush_pending sorted platform s.outbox in
    (flushed.0, record { process = p; outbox = flushed.1 })

module _ {F : Type 0} where
  -- The arguments of `set_livekit_inference_mode` for the settings.
  unfoldable pub inference_of : String → VoiceAgentSettings F → Option Inference
  inference_of rationale s =
      if s.voice_provider == livekit_inference_mode
      then some (record {
        primary = s.tuning.llm.model;
        fallbacks = s.tuning.llm.fallback_models;
        rationale = rationale;
      })
      else none

  unfoldable pub main :
      Result (VoiceAgentSettings F)
      → Stat
      → Source
      → String
      → (Dict File → Dict File)
      → (String → String → Reply)
      → Supervisor
      → Result (Unit {0}) × Supervisor
  unfolding inference_of reload_routing_config_if_changed flush_pending
  main (raise e) stat source rationale sorted platform s = (raise e, s)
  main (ok settings) stat source rationale sorted platform s = then_flush sorted platform s (
      reload_routing_config_if_changed stat source settings.llm_provider_priority
        (inference_of rationale settings) s.process)
