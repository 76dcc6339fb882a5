-- ===== src/App.antt =====
-- ai-service/app/main.py: which routes the application has, its logging, and the load of the routing
-- file before it serves.
mod Laws
mod Tests
use hire_os_be.Prelude.{
  ◌&&◌, ◌*◌, ◌+◌, ◌++◌, ◌-◌, ◌/◌, ◌<◌, ◌==◌, [], All, ap, arith, Bool, Bool-cases, drop, eq_iff,
  eq_refl, eqb, false, get_elem?, if◌then◌else◌, inl, inr, is_empty, last_n, leb, length,
  length-append, length-drop, length-last_n-le, length-map, List, ltb, map, none, not, Option,
  Option-cases, refl, some, String, subst, suc, sym, take, take-append-drop, true, zero, ◌||◌, ℕ,
  ◌↔◌, ◌∙◌, ◌∷◌, ◌≡◌, ◌≢◌, ◌≤◌, ◌⊎◌,
}
use hire_os_be.Prelude.{◌>>=◌, lower, member, ok, raise, Result, strip}
use hire_os_be.Prelude.Dict
use hire_os_be.Gateway.Policy.{Policies}
use hire_os_be.Gateway.Routing.{load_routing_config, Source}
use hire_os_be.Voice.Settings.{Environ, environ_get}

abbrev pub dev_env_names : List String
dev_env_names = "local" ∷ "development" ∷ "dev" ∷ []

unfoldable pub dev_metrics_dashboard_allowed : Environ → Bool
unfolding strip lower
dev_metrics_dashboard_allowed env =
    member (lower (strip (environ_get env "APP_ENV" ""))) dev_env_names

-- The root logger: for each handler whether its formatter is a JsonFormatter, and whether the level
-- was set to INFO.
pub record Logging : Type 0 where
  pub handlers : List Bool
  pub is_info : Bool

unfoldable pub any_json : List Bool → Bool
any_json [] = false
any_json (h ∷ l) = h || any_json l

unfoldable pub add_json_handler : Logging → Logging
unfolding any_json
add_json_handler log =
    if any_json log.handlers
    then log
    else record { handlers = log.handlers ++ true ∷ []; is_info = true }

unfoldable pub configure_logging : Environ → Logging → Logging
unfolding dev_metrics_dashboard_allowed add_json_handler
configure_logging env log = if dev_metrics_dashboard_allowed env then log else add_json_handler log

pub data Router : Type 0 where
  role_intelligence resume_intelligence matching_engine interview_orchestrator : Router
  evaluation_engine metrics_dashboard : Router

unfoldable pub routers : Environ → List Router
unfolding dev_metrics_dashboard_allowed
routers env =
    (role_intelligence ∷ resume_intelligence ∷ matching_engine ∷ interview_orchestrator
      ∷ evaluation_engine ∷ [])
    ++ (if dev_metrics_dashboard_allowed env then metrics_dashboard ∷ [] else [])

-- `_lifespan`: the start of the application fails if the file does not load.
unfoldable pub lifespan : Source → Policies → Result Policies
unfolding Dict.update load_routing_config
lifespan source policies = load_routing_config source >>= λ loaded. ok (Dict.update loaded policies)
