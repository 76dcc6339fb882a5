-- ===== src/Gateway/Breaker.antt =====
-- ai-service/app/model_gateway/circuit_breaker.py. Times are whole milliseconds of the monotonic
-- clock, read once by each operation and passed to it as `now`.
pub mod Laws
use hire_os_be.Prelude.{◌+◌, ◌-◌, Bool, if◌then◌else◌, leb, ltb, not, ℕ}
use hire_os_be.Gateway.Provider.{Provider, same}

abbrev pub rate_limit_cooldown : ℕ
rate_limit_cooldown = 300_000

abbrev pub failure_cooldown : ℕ
failure_cooldown = 60_000

abbrev pub failure_threshold : ℕ
failure_threshold = 3

pub record ProviderState : Type 0 where
  pub failure_count : ℕ
  pub cooldown_until : ℕ

-- `_ProviderState()`
abbrev pub fresh : ProviderState
fresh = record { failure_count = 0; cooldown_until = 0 }

-- The dictionary `_state`. A provider with no entry reads as `fresh`, which `_get` inserts.
abbrev pub Breaker : Type 0
Breaker = Provider → ProviderState

abbrev pub init : Breaker
init p = fresh

abbrev pub put : Breaker → Provider → ProviderState → Breaker
put b p s q = if same p q then s else b q

unfoldable pub is_available : Breaker → ℕ → Provider → Bool
is_available b now p = not (ltb now (b p).cooldown_until)

unfoldable pub record_success : Breaker → Provider → Breaker
record_success b p = put b p (record { failure_count = 0; cooldown_until = 0 })

unfoldable pub record_rate_limit : Breaker → ℕ → Provider → Breaker
record_rate_limit b now p =
    put b p (record { failure_count = 0; cooldown_until = now + rate_limit_cooldown })

unfoldable pub record_failure : Breaker → ℕ → Provider → Breaker
record_failure b now p =
    let count = (b p).failure_count + 1 in
    put b p (record {
      failure_count = count;
      cooldown_until =
          if leb failure_threshold count then now + failure_cooldown else (b p).cooldown_until;
    })

-- `max(0.0, remaining)`: subtraction of natural numbers stops at 0.
unfoldable pub cooldown_remaining : Breaker → ℕ → Provider → ℕ
cooldown_remaining b now p = (b p).cooldown_until - now
