-- ===== src/Voice/Worker/Reload.antt =====
-- `_reload_routing_config_if_changed` of ai-service/app/voice_agent/worker.py: the policies of a worker
-- process and the time of the file that they were loaded from.
pub mod Laws
use hire_os_be.Prelude.{
  [], ap, Bool, eqb, false, if◌then◌else◌, List, none, Option, some, String, ℕ,
}
use hire_os_be.Prelude.{ok, raise, Result}
use hire_os_be.Prelude.Dict
use hire_os_be.Prelude.Int.{fraction, pos}
use hire_os_be.Gateway.Provider.{Provider}
use hire_os_be.Gateway.Policy.{
  apply_provider_priority, Policies, set_livekit_inference_mode, Timeout, voice_llm_use_cases,
}
use hire_os_be.Gateway.Routing.{load_routing_config, Source}

-- The module-level USE_CASE_POLICIES and `_routing_config_mtime`.
pub record Process : Type 0 where
  pub policies : Policies
  pub mtime : Option ℕ

-- `path.stat()`: an OSError, or the file's modification time.
pub data Stat : Type 0 where
  os_error : Stat
  st_mtime : ℕ → Stat

-- The arguments of `set_livekit_inference_mode` if the settings select that mode; its `timeout_s` is
-- left at the default.
pub record Inference : Type 0 where
  pub primary : String
  pub fallbacks : List String
  pub rationale : String

abbrev pub inference_timeout : Timeout
inference_timeout = record { seconds = fraction (pos 8) 0; deadline = 8000 }

unfoldable pub apply_mode : Option Inference → Policies → Policies
apply_mode none policies = policies
apply_mode (some m) policies =
    set_livekit_inference_mode m.primary m.fallbacks inference_timeout m.rationale policies

abbrev pub unchanged : ℕ → Option ℕ → Bool
unchanged t none = false
unchanged t (some u) = eqb t u

unfoldable pub prioritized :
    ℕ → Option Inference → Process → Policies × Result (Unit {0}) → Process × Result (Unit {0})
unfolding apply_mode
prioritized t mode p (policies, raise e) = (record p { policies = policies }, raise e)
prioritized t mode p (policies, ok u) =
    (record { policies = apply_mode mode policies; mtime = some t }, ok tt)

-- The policies are cleared before the file is loaded, so they are empty when loading raises.
unfoldable pub reload :
    ℕ → Source → List Provider → Option Inference → Process → Process × Result (Unit {0})
unfolding prioritized
reload t source order mode p = elim (load_routing_config source) [
  | raise e ↦ (record p { policies = [] }, raise e)
  | ok loaded ↦ prioritized t mode p (apply_provider_priority voice_llm_use_cases order loaded)
]

unfoldable pub reload_routing_config_if_changed :
    Stat → Source → List Provider → Option Inference → Process → Process × Result (Unit {0})
unfolding reload apply_mode
reload_routing_config_if_changed os_error source order mode p = (p, ok tt)
reload_routing_config_if_changed (st_mtime t) source order mode p =
    if unchanged t p.mtime
    then (record p { policies = apply_mode mode p.policies }, ok tt)
    else reload t source order mode p
