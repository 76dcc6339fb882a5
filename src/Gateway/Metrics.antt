-- ===== src/Gateway/Metrics.antt =====
-- `_log_metrics` of ai-service/app/model_gateway/gateway.py and `is_dev_metrics_enabled` of
-- metrics_log.py. Latencies are whole milliseconds, so the rounding to three places is exact.
use hire_os_be.Prelude.{◌+◌, ◌/◌, ◌==◌, [], Bool, if◌then◌else◌, none, Option, some, String, ℕ}
use hire_os_be.Prelude.{lower, str_len, strip}
use hire_os_be.Prelude.Dict
use hire_os_be.Prelude.Dict.{Dict}
use hire_os_be.Prelude.Json.{Json, json_text}
use hire_os_be.Gateway.Provider.{Provider}

unfoldable pub is_dev_metrics_enabled : (String → Option String) → Bool
unfolding strip lower
is_dev_metrics_enabled env =
    lower (strip (elim (env "DEV_METRICS_ENABLED") [ none ↦ "false" | some s ↦ s ])) == "true"

-- The texts of one call.
pub record Prompts : Type 0 where
  pub use_case : String
  pub system_prompt : String
  pub user_prompt : String
  pub context_detail : Option (Dict Json)

pub record Metric : Type 0 where
  pub use_case : String
  pub provider : Provider
  pub model : Option String
  pub context_chars : ℕ
  pub approx_context_tokens : ℕ
  pub output_chars : ℕ
  pub latency : ℕ
  pub ttft : Option ℕ
  pub used_fallback : Bool
  pub interrupted : Bool
  pub context_detail : Option (Dict Json)
  pub retries_used : Option ℕ

-- `if key not in ctx: ctx[key] = text`
unfoldable pub add_missing : String → String → Dict Json → Dict Json
add_missing key text ctx = if Dict.has key ctx then ctx else Dict.put key (json_text text) ctx

abbrev pub given : Option (Dict Json) → Dict Json
given none = []
given (some d) = d

unfoldable pub enriched : Bool → Prompts → String → Option (Dict Json)
unfolding add_missing
enriched dev p output =
    if dev
    then some (
        add_missing "output_text" output (
          add_missing "user_prompt" p.user_prompt
            (add_missing "system_prompt" p.system_prompt (given p.context_detail))))
    else p.context_detail

-- The record that is logged, and appended to the development file when that is enabled.
unfoldable pub metric :
    Bool
    → Prompts
    → Provider
    → Option String
    → (output : String) (latency : ℕ) (ttft : Option ℕ) (used_fallback interrupted : Bool)
      (retries : Option ℕ)
    → (output_chars : ℕ) → Metric
unfolding enriched
metric dev p provider model output latency ttft used_fallback interrupted retries output_chars =
    record {
      use_case = p.use_case;
      provider = provider;
      model = model;
      context_chars = str_len p.system_prompt + str_len p.user_prompt;
      approx_context_tokens = (str_len p.system_prompt + str_len p.user_prompt) / 4;
      output_chars = output_chars;
      latency = latency;
      ttft = ttft;
      used_fallback = used_fallback;
      interrupted = interrupted;
      context_detail = enriched dev p output;
      retries_used = retries;
    }
