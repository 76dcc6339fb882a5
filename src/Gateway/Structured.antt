-- ===== src/Gateway/Structured.antt =====
-- `run_structured`, `_structured_chain` and `_structured_attempt` of
-- ai-service/app/model_gateway/gateway.py. The schema is pydantic's: `validate` is
-- `model_validate_json`, with none for a refusal, and `dump` is `model_dump_json`.
pub mod Attempts
pub mod Laws
pub mod Breaker
use hire_os_be.Prelude.{
  ◌-◌, [], false, List, ltb, none, Option, some, String, suc, true, zero, ℕ, ◌∷◌,
}
use hire_os_be.Prelude.{ok, raise, Result, runtime_error, str_len}
use hire_os_be.Gateway.Provider.{Provider}
use hire_os_be.Gateway.Breaker.{is_available, record_failure, record_success}
use hire_os_be.Gateway.Policy.{get_policy, Policies, ProviderChoice}
use hire_os_be.Gateway.Client.{Client, get_provider_client, World}
use hire_os_be.Gateway.Metrics.{is_dev_metrics_enabled, metric, Prompts}
use hire_os_be.Gateway.State.{Gateway, handle_provider_exc, log, request}

-- What the chain hands to `run_structured`.
pub record Parsed (A : Type 0) : Type 0 where
  pub parsed : A
  pub choice : ProviderChoice
  pub latency : ℕ
  pub tier : ℕ
  pub retries : ℕ

module _ (w : World) {A : Type 0} (validate : String → Option A) where
  unfoldable pub validated : Result String → Option A
  validated (ok raw) = validate raw
  validated (raise e) = none

  -- The loop over the attempts: `left` of them remain, and `attempt` have failed.
  unfoldable pub tries : (left attempt : ℕ) → Provider → Client → Gateway → Option (A × ℕ) × Gateway
  unfolding validated request record_success record_failure
  tries zero attempt p c g = (none, record g { breaker = record_failure g.breaker g.now p })
  tries (suc left) attempt p c g =
      let (r, g') = request w p c g in
      elim (validated r) [
        | some a ↦ (some (a, attempt), record g' { breaker = record_success g'.breaker p })
        | none ↦ tries left (suc attempt) p c g'
      ]

  unfoldable pub structured_attempt : ProviderChoice → Gateway → Option (A × ℕ) × Gateway
  unfolding is_available tries handle_provider_exc
  structured_attempt c g = elim (is_available g.breaker g.now c.provider) [
    | false ↦ (none, g)
    | true ↦ elim (get_provider_client w c.provider c.model) [
      | raise e ↦ (none, handle_provider_exc e c.provider g)
      | ok client ↦ tries 2 0 c.provider client g
    ]
  ]

  unfoldable pub structured_chain : List ProviderChoice → ℕ → Gateway → Result (Parsed A) × Gateway
  unfolding structured_attempt
  structured_chain [] tier g =
      (raise (runtime_error "structured output failed on every provider in the chain"), g)
  structured_chain (c ∷ chain) tier g =
      let (r, g') = structured_attempt c g in
      elim r [
        | some (a, retries) ↦ (
          ok (record {
            parsed = a;
            choice = c;
            latency = g'.now - g.now;
            tier = tier;
            retries = retries;
          }),
          g',
        )
        | none ↦ structured_chain chain (suc tier) g'
      ]

  unfoldable pub run_structured : (A → String) → Policies → Prompts → Gateway → Result A × Gateway
  unfolding structured_chain log
  run_structured dump policies p g = elim (get_policy p.use_case policies) [
    | raise e ↦ (raise e, g)
    | ok policy ↦
        let (r, g') = structured_chain policy.chain 0 g in
        elim r [
          | raise e ↦ (raise e, g')
          | ok s ↦ (
            ok s.parsed,
            log
                (metric (is_dev_metrics_enabled w.env) p s.choice.provider s.choice.model
                  (dump s.parsed) s.latency none (ltb 0 s.tier) false (some s.retries)
                  (str_len (dump s.parsed)))
                g',
          )
        ]
  ]
