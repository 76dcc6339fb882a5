-- ===== src/Dev/Trace.antt =====
-- The record that `_log_metrics` of ai-service/app/model_gateway/gateway.py appends to the metrics file,
-- and what the dashboard shows of it. The latencies are whole milliseconds there.
use hire_os_be.Prelude.{
  ◌<◌, ◌==◌, [], All, ap, arith, Bool, Bool-cases, eq_iff, false, if◌then◌else◌, inl, inr, none,
  Option, refl, some, String, true, ℕ, ◌∙◌, ◌∷◌, ◌≡◌,
}
use hire_os_be.Prelude.{ok, ◌||◌}
use hire_os_be.Prelude.Dict
use hire_os_be.Prelude.Dict.{Dict, get-none, get-put, has-put}
use hire_os_be.Prelude.Json.{dict, Json, json_bool, json_null, json_num, json_text}
use hire_os_be.Gateway.Metrics.{
  add_missing, enriched, given, is_dev_metrics_enabled, Metric, metric, Prompts,
}
use hire_os_be.Gateway.Provider.{Provider, value}
use hire_os_be.Dev.MetricsLog.{append_metric, contents, DevFiles, no_faults}
use hire_os_be.Dev.MetricsLog.Laws.{IsStale}
use hire_os_be.Dev.Dashboard.{data_detail}
use hire_os_be.Dev.Dashboard.Laws.{data_detail-append_metric}

abbrev pub text_or_null : Option String → Json
text_or_null none = json_null
text_or_null (some s) = json_text s

abbrev pub num_or_null : Option ℕ → Json
num_or_null none = json_null
num_or_null (some n) = json_num n

abbrev pub dict_or_null : Option (Dict Json) → Json
dict_or_null none = json_null
dict_or_null (some d) = dict d

unfoldable pub metric_record : Metric → Dict Json
metric_record m =
    ("use_case", json_text m.use_case)
    ∷ ("provider", json_text (value m.provider))
    ∷ ("model", text_or_null m.model)
    ∷ ("context_chars", json_num m.context_chars)
    ∷ ("approx_context_tokens", json_num m.approx_context_tokens)
    ∷ ("output_chars", json_num m.output_chars)
    ∷ ("latency_s", json_num m.latency)
    ∷ ("ttft_s", num_or_null m.ttft)
    ∷ ("used_fallback", json_bool m.used_fallback)
    ∷ ("interrupted", json_bool m.interrupted)
    ∷ ("context_detail", dict_or_null m.context_detail)
    ∷ ("retries_used", num_or_null m.retries_used)
    ∷ []

-- What a key has after a text was added unless the key was there.
get-add_missing :
    (k j text : String) (d : Dict Json)
    → Dict.get j (add_missing k text d)
      ≡ (if Dict.has j d then Dict.get j d else if k == j then some (json_text text) else none)
unfolding add_missing
get-add_missing k j text d = elim (Bool-cases (Dict.has k d)) [
  | inl e ↦ rw e (kept e)
  | inr e ↦ rw e (ground (arith, get-put k j (json_text text) d, eq_iff k j, absent j))
]
  where
    absent : (i : String) → Dict.has i d ≡ false → Dict.get i d ≡ none
    absent i h = get-none i d h

    kept :
        Dict.has k d ≡ true
        → Dict.get j d
          ≡ (if Dict.has j d then Dict.get j d else if k == j then some (json_text text) else none)
    kept e = elim (Bool-cases (Dict.has j d)) [
      | inl there ↦ rw there refl
      | inr gone ↦ rw (gone, absent j gone) (ground (arith, eq_iff k j))
    ]

has-add_missing :
    (k j text : String) (d : Dict Json)
    → Dict.has j (add_missing k text d) ≡ (Dict.has j d || k == j)
unfolding add_missing
has-add_missing k j text d = elim (Bool-cases (Dict.has k d)) [
  | inl e ↦ rw e (ground (arith, eq_iff k j))
  | inr e ↦ rw e (ground (arith, has-put k j (json_text text) d))
]

-- The three additions of a call.
added :
    (key : String) (p : Prompts) (output : String)
    → let own = given p.context_detail in
      Dict.get key (
        add_missing "output_text" output (
          add_missing "user_prompt" p.user_prompt
            (add_missing "system_prompt" p.system_prompt own)))
      ≡ (if Dict.has key own
          then Dict.get key own
          else if "system_prompt" == key
          then some (json_text p.system_prompt)
          else if "user_prompt" == key
          then some (json_text p.user_prompt)
          else if "output_text" == key
          then some (json_text output)
          else none)
added key p output =
    let own = given p.context_detail in
    let prompted = add_missing "system_prompt" p.system_prompt own in
    let inner = add_missing "user_prompt" p.user_prompt prompted in
    ground (
      arith,
      get-add_missing "output_text" key output inner,
      has-add_missing "user_prompt" key p.user_prompt prompted,
      get-add_missing "user_prompt" key p.user_prompt prompted,
      has-add_missing "system_prompt" key p.system_prompt own,
      get-add_missing "system_prompt" key p.system_prompt own,
    )

module _ (dumps : Json → String) (loads : String → Option Json) where
  -- With the development metrics enabled, the record of a call, appended later than every record of the
  -- file, is found by its time, and the detail endpoint answers a dictionary that has under every key
  -- what the call's own context has there and, where that has no such key, the system prompt, the user
  -- prompt and the reply under their three keys, and nothing else. `json.loads` reads back what
  -- `json.dumps` wrote of a dictionary.
  pub data_detail-metric :
      ((d : Dict Json) → loads (dumps (dict d)) ≡ some (dict d))
      → (env : String → Option String) (t now : ℕ) (d : DevFiles) (p : Prompts)
        (provider : Provider) (model : Option String) (output : String) (latency : ℕ)
        (ttft : Option ℕ) (used_fallback interrupted : Bool) (retries : Option ℕ) (chars : ℕ)
        (key : String)
      → is_dev_metrics_enabled env ≡ true
      → All (IsStale dumps loads t) (contents d.metrics)
      → t < now
      → let m =
          metric
            (is_dev_metrics_enabled env)
            p
            provider
            model
            output
            latency
            ttft
            used_fallback
            interrupted
            retries
            chars in
        (ctx : Dict Json) × (data_detail loads now
            (append_metric dumps env no_faults now (metric_record m) d).1
          ≡ ok (some (dict ctx)))
        × (Dict.get key ctx ≡ (
            if Dict.has key (given p.context_detail)
            then Dict.get key (given p.context_detail)
            else if "system_prompt" == key
            then some (json_text p.system_prompt)
            else if "user_prompt" == key
            then some (json_text p.user_prompt)
            else if "output_text" == key
            then some (json_text output)
            else none))
  unfolding metric_record metric enriched Dict.get Dict.has
  data_detail-metric round env t now d p provider model output latency ttft used_fallback
        interrupted retries chars key enabled stale late =
      let own = given p.context_detail in
      let prompted = add_missing "system_prompt" p.system_prompt own in
      let inner = add_missing "user_prompt" p.user_prompt prompted in
      let ctx = add_missing "output_text" output inner in
      let r = metric_record (
        metric (is_dev_metrics_enabled env) p provider model output latency ttft used_fallback
          interrupted retries chars) in
      (
        ctx,
        data_detail-append_metric dumps loads round env t now r d enabled stale late refl (
          refl,
          (
            refl,
            (refl, (refl, (refl, (refl, (refl, (refl, (refl, (refl, (refl, (refl, tt)))))))))),
          ),
        )
            ∙ ap (λ b. ok (some (dict_or_null (if b then some ctx else p.context_detail)))) enabled,
        added key p output,
      )
