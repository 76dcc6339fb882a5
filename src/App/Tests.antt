-- ===== src/App/Tests.antt =====
-- The application of ai-service/app/main.py in one environment.
use hire_os_be.Prelude.{◌==◌, [], false, if◌then◌else◌, none, refl, some, true, ◌↔◌, ◌∷◌, ◌≡◌, ◌⊎◌}
use hire_os_be.Prelude.{lower, strip}
use hire_os_be.App.{configure_logging, routers}
use hire_os_be.App.Laws.{mounts_dashboard, mounts_dashboard-routers}
use hire_os_be.Voice.Settings.{Environ, environ_get}

abbrev staging : Environ
staging name = if name == "APP_ENV" then some "staging" else none

mounts_dashboard-routers_example :
    (mounts_dashboard (routers staging) ≡ true)
    ↔ (lower (strip (environ_get staging "APP_ENV" "")) ≡ "local")
      ⊎ (lower (strip (environ_get staging "APP_ENV" "")) ≡ "development")
      ⊎ (lower (strip (environ_get staging "APP_ENV" "")) ≡ "dev")
mounts_dashboard-routers_example = mounts_dashboard-routers staging

logging-test :
    configure_logging staging (record { handlers = []; is_info = false })
    ≡ record { handlers = true ∷ []; is_info = true }
unfolding configure_logging
logging-test = refl
