-- ===== src/Gateway/Run.antt =====
-- `ModelGateway.run` of ai-service/app/model_gateway/gateway.py.
pub mod Laws
pub mod Served
pub mod Reach
use hire_os_be.Prelude.{◌-◌, [], false, List, ltb, none, Option, some, String, suc, true, ℕ, ◌∷◌}
use hire_os_be.Prelude.{Exc, ok, raise, Result, runtime_error, str_len}
use hire_os_be.Gateway.Provider.{Provider}
use hire_os_be.Gateway.Breaker.{is_available, record_success}
use hire_os_be.Gateway.Policy.{get_policy, Policies, ProviderChoice}
use hire_os_be.Gateway.Client.{get_provider_client, World}
use hire_os_be.Gateway.Metrics.{is_dev_metrics_enabled, metric, Prompts}
use hire_os_be.Gateway.State.{Gateway, handle_provider_exc, log, request}

module _ (w : World) where
  -- The body of the `try`.
  unfoldable pub attempt : ProviderChoice → Gateway → Result String × Gateway
  unfolding request
  attempt c g = elim (get_provider_client w c.provider c.model) [
    | raise e ↦ (raise e, g)
    | ok client ↦ request w c.provider client g
  ]

  -- What follows a success at the given tier.
  unfoldable pub succeed : Prompts → ProviderChoice → ℕ → ℕ → String → Gateway → Gateway
  unfolding record_success log
  succeed p c tier start text g =
      log
        (metric (is_dev_metrics_enabled w.env) p c.provider c.model text (g.now - start) none
          (ltb 0 tier) false none (str_len text))
        (record g { breaker = record_success g.breaker c.provider })

  -- The loop over the chain, with the last exception caught so far.
  unfoldable pub run_from :
      Prompts → List ProviderChoice → ℕ → Option Exc → Gateway → Result String × Gateway
  unfolding is_available attempt succeed handle_provider_exc
  run_from p [] tier (some e) g = (raise e, g)
  run_from p [] tier none g =
      (raise (runtime_error "no providers configured or all in cooldown"), g)
  run_from p (c ∷ chain) tier last g = elim (is_available g.breaker g.now c.provider) [
    | false ↦ run_from p chain (suc tier) last g
    | true ↦
        let (r, g') = attempt c g in
        elim r [
          | raise e ↦ run_from p chain (suc tier) (some e) (handle_provider_exc e c.provider g')
          | ok text ↦ (ok text, succeed p c tier g.now text g')
        ]
  ]

  unfoldable pub run : Policies → Prompts → Gateway → Result String × Gateway
  unfolding run_from
  run policies p g = elim (get_policy p.use_case policies) [
    | raise e ↦ (raise e, g)
    | ok policy ↦ run_from p policy.chain 0 none g
  ]
