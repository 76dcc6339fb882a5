-- ===== src/Gateway/State.antt =====
-- The state that calls of the gateway share, and the classification of provider errors
-- (`_handle_provider_exc` of ai-service/app/model_gateway/gateway.py).
use hire_os_be.Prelude.{◌+◌, [], if◌then◌else◌, length, List, String, suc, ℕ, ◌∷◌}
use hire_os_be.Prelude.{Exc, key_error, rate_limit_error}
use hire_os_be.Gateway.Provider.{Provider, same}
use hire_os_be.Gateway.Breaker.{Breaker, record_failure, record_rate_limit}
use hire_os_be.Prelude.{Result}
use hire_os_be.Gateway.Client.{Client, complete, unimplemented, World}
use hire_os_be.Gateway.Metrics.{Metric}

-- The breaker, the monotonic clock, the providers to which a request was sent and the metrics
-- records, both newest first.
pub record Gateway : Type 0 where
  pub breaker : Breaker
  pub now : ℕ
  pub sent : List Provider
  pub logged : List Metric

-- The class is tested by name where the openai package is absent, with the same outcome.
unfoldable pub handle_provider_exc : Exc → Provider → Gateway → Gateway
unfolding record_rate_limit record_failure
handle_provider_exc rate_limit_error p g = record g {
  breaker = record_rate_limit g.breaker g.now p;
}
handle_provider_exc (key_error k) p g = record g { breaker = record_rate_limit g.breaker g.now p }
handle_provider_exc e p g = record g { breaker = record_failure g.breaker g.now p }

unfoldable pub log : Metric → Gateway → Gateway
log m g = record g { logged = m ∷ g.logged }

-- Requests sent to one provider.
abbrev pub sent_to : Provider → List Provider → ℕ
sent_to p [] = 0
sent_to p (q ∷ l) = if same q p then suc (sent_to p l) else sent_to p l

-- The provider that a client sends its request to.
abbrev pub target : Provider → Client → List Provider → List Provider
target p (unimplemented q) sent = sent
target p c sent = p ∷ sent

module _ (w : World) where
  -- One request through a client that has been constructed.
  unfoldable pub request : Provider → Client → Gateway → Result String × Gateway
  request p c g = (
    complete w c (length g.sent),
    record g { now = g.now + w.elapsed (length g.sent); sent = target p c g.sent },
  )
