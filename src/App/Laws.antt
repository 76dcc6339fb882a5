-- ===== src/App/Laws.antt =====
-- The dashboard and the logging of ai-service/app/main.py.
use hire_os_be.Prelude.{
  ◌++◌, [], ap, arith, Bool, Bool-cases, eq_iff, false, if◌then◌else◌, inl, inr, List, refl, String,
  sym, true, ◌↔◌, ◌∙◌, ◌∷◌, ◌≡◌, ◌⊎◌,
}
use hire_os_be.Prelude.{lower, member, strip}
use hire_os_be.App.{
  add_json_handler, any_json, configure_logging, dev_env_names, dev_metrics_dashboard_allowed,
  Logging, metrics_dashboard, Router, routers,
}
use hire_os_be.Voice.Settings.{Environ, environ_get}

abbrev pub mounts_dashboard : List Router → Bool
mounts_dashboard [] = false
mounts_dashboard (metrics_dashboard ∷ l) = true
mounts_dashboard (_ ∷ l) = mounts_dashboard l

any_json-append : (l : List Bool) → any_json (l ++ true ∷ []) ≡ true
unfolding any_json
any_json-append [] = refl
any_json-append (true ∷ l) = refl
any_json-append (false ∷ l) = any_json-append l

add_json_handler-twice :
    (log : Logging) → add_json_handler (add_json_handler log) ≡ add_json_handler log
unfolding add_json_handler
add_json_handler-twice log = elim (Bool-cases (any_json log.handlers)) [
  | inl j ↦ if_same _ _ _ (ap any_json (ap (λ l. l.handlers) (if_true _ _ _ j)) ∙ j)
  | inr j ↦
      if_same _ _ _
        (ap any_json (ap (λ l. l.handlers) (if_false _ _ _ j)) ∙ any_json-append log.handlers)
]
  where
    if_same : (b : Bool) (x y : Logging) → b ≡ true → (if b then x else y) ≡ x
    if_same b x y h = rw h refl

    if_true : (b : Bool) (x y : Logging) → b ≡ true → (if b then x else y) ≡ x
    if_true b x y h = rw h refl

    if_false : (b : Bool) (x y : Logging) → b ≡ false → (if b then x else y) ≡ y
    if_false b x y h = rw h refl

configure_logging-twice :
    (env : Environ) (log : Logging)
    → configure_logging env (configure_logging env log) ≡ configure_logging env log
unfolding configure_logging
configure_logging-twice env log = elim (Bool-cases (dev_metrics_dashboard_allowed env)) [
  | inl e ↦ rw e refl
  | inr e ↦ rw e (add_json_handler-twice log)
]

member-dev_env_names :
    (name : String)
    → (member name dev_env_names ≡ true)
      ↔ (name ≡ "local") ⊎ (name ≡ "development") ⊎ (name ≡ "dev")
member-dev_env_names name =
    ground (arith, eq_iff "local" name, eq_iff "development" name, eq_iff "dev" name)

mounts_allowed :
    (env : Environ) → mounts_dashboard (routers env) ≡ dev_metrics_dashboard_allowed env
unfolding routers
mounts_allowed env = elim (Bool-cases (dev_metrics_dashboard_allowed env)) [
  | inl e ↦ rw e refl
  | inr e ↦ rw e refl
]

-- The dashboard has its routes exactly if APP_ENV, stripped and in lower case, is `local`,
-- `development` or `dev`, where an APP_ENV that is not set counts as the empty text.
pub mounts_dashboard-routers :
    (env : Environ)
    → let name = lower (strip (environ_get env "APP_ENV" "")) in
      (mounts_dashboard (routers env) ≡ true)
      ↔ (name ≡ "local") ⊎ (name ≡ "development") ⊎ (name ≡ "dev")
unfolding dev_metrics_dashboard_allowed
mounts_dashboard-routers env =
    let named = member-dev_env_names (lower (strip (environ_get env "APP_ENV" ""))) in
    (λ h. named.0 (sym (mounts_allowed env) ∙ h), λ h. mounts_allowed env ∙ named.1 h)
