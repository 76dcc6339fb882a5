-- ===== src/Gateway/Tests.antt =====
-- Runs of the gateway: the first tier is rate limited, the second one answers.
use hire_os_be.Prelude.{
  ◌&&◌, ◌*◌, ◌+◌, [], arith, false, if◌then◌else◌, length, List, ltb, map, member, none, ok, Option,
  raise, rate_limit_error, refl, runtime_error, some, str_len, String, true, truthy, ℕ, ◌↔◌, ◌∷◌,
  ◌≡◌, ◌≤◌,
}
use hire_os_be.Prelude.Dict
use hire_os_be.Prelude.Int.{fraction, pos}
use mathlib.Core.List.{Perm}
use hire_os_be.Gateway.Provider.{gemini, groq, openai, Provider}
use hire_os_be.Gateway.Breaker.{fresh, init, is_available, record_failure, record_rate_limit}
use hire_os_be.Gateway.Breaker.Laws.{
  Cooling, is_available-recovers, Outcome, reports, skipped_iff-Cooling,
}
use hire_os_be.Gateway.Policy.{
  apply_provider_priority, get_policy, inference_chain, Policies, ProviderChoice, reorder_chain,
  set_livekit_inference_mode, Timeout, UseCasePolicy, voice_llm_use_cases,
}
use hire_os_be.Gateway.Policy.Priority.{IsReordered, reorder_chain-IsReordered}
use hire_os_be.Gateway.Policy.Modes.{apply_provider_priority-perm, set_livekit_inference_mode_lem}
use hire_os_be.Gateway.Routing.{
  load_routing_config, required_use_cases, Source, use_cases, UseCasePolicyEntry,
}
use hire_os_be.Gateway.Routing.Chains.{IsUsable}
use hire_os_be.Gateway.Routing.Laws.{load_routing_config-IsUsable}
use hire_os_be.Gateway.Client.{
  Client, complete, content, fails, get_provider_client, Reply, Stream, World,
}
use hire_os_be.Gateway.Client.Laws.{complete-truthy}
use hire_os_be.Gateway.Metrics.{is_dev_metrics_enabled, metric, Prompts}
use hire_os_be.Gateway.State.{Gateway, handle_provider_exc}
use hire_os_be.Gateway.Follows.{Follows}
use hire_os_be.Gateway.Run.{run}
use hire_os_be.Gateway.Run.Served.{run-IsCooling, run-Served, Served}
use hire_os_be.Gateway.Run.Reach.{IsHealthy, run-Follows, run-IsHealthy, sent-run}
use hire_os_be.Gateway.Structured.{Parsed, run_structured, structured_attempt, structured_chain}
use hire_os_be.Gateway.Structured.Laws.{Accepted, run_structured-Accepted, sent-run_structured}
use hire_os_be.Gateway.Structured.Breaker.{structured_attempt-none}
use hire_os_be.Gateway.Streaming.{Ending, open_stream, run_stream, stream_chain}
use hire_os_be.Gateway.Streaming.Laws.{run_stream-Follows, stream_chain-silent}
use hire_os_be.Gateway.Streaming.Source.{run_stream-Sourced, Sourced}

abbrev limited_groq : Provider → String → ℕ → Reply
limited_groq groq m n = fails rate_limit_error
limited_groq p m n = content (some "{}")

abbrev limited_stream : Provider → String → ℕ → Stream
limited_stream groq m n = record { deltas = []; end = some rate_limit_error; delay = 3 }
limited_stream p m n = record { deltas = some "he" ∷ none ∷ some "llo" ∷ []; end = none; delay = 3 }

abbrev world : World
world = record {
  env = λ k. some "key";
  sdk = λ p. none;
  reply = limited_groq;
  stream = limited_stream;
  elapsed = λ n. 7;
}

abbrev eight_seconds : Timeout
eight_seconds = record { seconds = fraction (pos 8) 0; deadline = 8000 }

abbrev tier : Provider → ProviderChoice
tier p = record { provider = p; model = some "m"; timeout = none }

abbrev two_tiers : UseCasePolicy
two_tiers = record { chain = tier groq ∷ tier gemini ∷ []; rationale = "" }

abbrev policies : Policies
policies = ("voice_interview_turn", two_tiers) ∷ []

abbrev prompts : Prompts
prompts = record {
  use_case = "voice_interview_turn";
  system_prompt = "You interview.";
  user_prompt = "Candidate: Hi";
  context_detail = none;
}

abbrev start : Gateway
start = record { breaker = init; now = 1000; sent = []; logged = [] }

run-Served_example :
    (policy : UseCasePolicy) × (get_policy "voice_interview_turn" policies ≡ ok policy)
    × Served world prompts policy.chain 0 start (run world policies prompts start).1 "{}"
unfolding run get_policy Dict.get get_provider_client complete
run-Served_example = run-Served world policies prompts start "{}" refl

gemini-IsHealthy : IsHealthy world gemini
unfolding get_provider_client complete
gemini-IsHealthy model = (_, refl, λ n. ("{}", refl))

run-IsHealthy_example : (text : String) × ((run world policies prompts start).0 ≡ ok text)
unfolding get_policy is_available Dict.get
run-IsHealthy_example =
    run-IsHealthy world policies prompts start two_tiers gemini refl gemini-IsHealthy refl refl

run-Follows_example : Follows start (run world policies prompts start).1
run-Follows_example = run-Follows world policies prompts start

sent-run-test :
    length (run world policies prompts start).1.sent
    ≤ length {A = Provider} [] + length two_tiers.chain
unfolding get_policy Dict.get
sent-run-test = sent-run world policies prompts start two_tiers refl

-- Both providers were rate limited a moment ago.
abbrev limited : Gateway
unfolding record_rate_limit
limited = record start { breaker = record_rate_limit (record_rate_limit init 900 groq) 900 gemini }

run-IsCooling-test :
    run world policies prompts limited
    ≡ (raise (runtime_error "no providers configured or all in cooldown"), limited)
unfolding get_policy is_available record_rate_limit Dict.get
run-IsCooling-test = run-IsCooling world policies prompts limited two_tiers refl (refl, (refl, tt))

abbrev brace : String → Option String
brace s = if truthy s then some s else none

run_structured-Accepted_example :
    (policy : UseCasePolicy) × (get_policy "voice_interview_turn" policies ≡ ok policy)
    × (s : Parsed String) × (s.parsed ≡ "{}")
    × Accepted world brace policy.chain 0 start
        (structured_chain world brace policy.chain 0 start).1
        s
    × ((run_structured world brace (λ a. a) policies prompts start).1.breaker s.choice.provider
        ≡ fresh)
    × ((run_structured world brace (λ a. a) policies prompts start).1.logged
        ≡ metric
            (is_dev_metrics_enabled world.env)
            prompts
            s.choice.provider
            s.choice.model
            "{}"
            s.latency
            none
            (ltb 0 s.tier)
            false
            (some s.retries)
            (str_len "{}")
          ∷ [])
unfolding run_structured get_policy Dict.get get_provider_client complete
run_structured-Accepted_example =
    run_structured-Accepted world brace (λ a. a) policies prompts start "{}" refl

sent-run_structured_example :
    length (run_structured world brace (λ a. a) policies prompts start).1.sent
    ≤ length {A = Provider} [] + 2 * length two_tiers.chain
unfolding get_policy Dict.get
sent-run_structured_example =
    sent-run_structured world brace (λ a. a) policies prompts start two_tiers refl

structured_attempt-none_example :
    (structured_attempt world brace (tier groq) start).1.breaker
    ≡ record_failure init (structured_attempt world brace (tier groq) start).1.now groq
unfolding structured_attempt get_provider_client is_available complete
structured_attempt-none_example =
    structured_attempt-none world brace (tier groq) _ start refl refl refl

some_text : {l : List String} → ("he" ∷ l ≡ []) → ⊥
some_text h = cc

run_stream-Sourced_example :
    (policy : UseCasePolicy) × (get_policy "voice_interview_turn" policies ≡ ok policy)
    × Sourced world prompts policy.chain 0 start
        (run_stream world none policies prompts start).0
        (run_stream world none policies prompts start).1
unfolding run_stream get_policy Dict.get get_provider_client
    hire_os_be.Gateway.Client.stream_complete
run_stream-Sourced_example = run_stream-Sourced world none policies prompts start some_text

run_stream-Follows-test : Follows start (run_stream world none policies prompts start).1
run_stream-Follows-test = run_stream-Follows world none policies prompts start

complete-truthy_example : truthy "{}" ≡ true
unfolding complete
complete-truthy_example = complete-truthy world (Client.api gemini "m") 0 "{}" refl

abbrev failures : List Outcome
failures =
    Outcome.failure 900 ∷ Outcome.failure 800 ∷ Outcome.failure 700 ∷ Outcome.success 100 ∷ []

skipped_iff-Cooling_example :
    (is_available (reports groq init failures) 1000 groq ≡ false) ↔ Cooling 1000 failures
skipped_iff-Cooling_example = skipped_iff-Cooling groq failures 1000

is_available-recovers_example : is_available (reports groq init failures) 301_000 groq ≡ true
is_available-recovers_example =
    is_available-recovers groq failures 1000 301_000
      (omega arith, (omega arith, (omega arith, (omega arith, tt)))) (omega arith)

abbrev four_tiers : List ProviderChoice
four_tiers = tier gemini ∷ tier openai ∷ tier groq ∷ tier openai ∷ []

reorder_chain-IsReordered_example :
    IsReordered (groq ∷ gemini ∷ []) four_tiers (reorder_chain four_tiers (groq ∷ gemini ∷ []))
reorder_chain-IsReordered_example = reorder_chain-IsReordered four_tiers (groq ∷ gemini ∷ [])

apply_provider_priority-perm_example :
    (p' : UseCasePolicy) × (Dict.get "voice_interview_turn"
        (apply_provider_priority ("voice_interview_turn" ∷ []) (gemini ∷ []) policies).0
      ≡ some p')
    × Perm p'.chain two_tiers.chain
    × (p'.rationale ≡ "")
unfolding Dict.get
apply_provider_priority-perm_example =
    apply_provider_priority-perm ("voice_interview_turn" ∷ []) (gemini ∷ []) policies
      "voice_interview_turn" two_tiers refl

set_livekit_inference_mode_lem_example :
    Dict.get "voice_interview_turn"
      (set_livekit_inference_mode "a" ("b" ∷ []) eight_seconds "" policies)
    ≡ (if member "voice_interview_turn" voice_llm_use_cases
          && Dict.has "voice_interview_turn" policies
        then some (record {
          chain =
              record {
                provider = Provider.livekit_inference;
                model = some "a";
                timeout = some eight_seconds;
              }
              ∷ inference_chain eight_seconds ("b" ∷ []);
          rationale = "";
        })
        else Dict.get "voice_interview_turn" policies)
set_livekit_inference_mode_lem_example =
    set_livekit_inference_mode_lem "a" ("b" ∷ []) eight_seconds "" policies "voice_interview_turn"

abbrev entry : UseCasePolicyEntry
entry = record {
  chain =
      record { provider = "groq"; model = "m"; timeout = some eight_seconds }
      ∷ record { provider = "gemini"; model = "m"; timeout = none }
      ∷ [];
  rationale = "";
}

abbrev source : Source
source = use_cases (map (λ u. (u, entry)) required_use_cases)

abbrev loaded : Policies
loaded =
    map
      (λ u. (
        u,
        record {
          chain =
              record { provider = groq; model = some "m"; timeout = some eight_seconds }
              ∷ tier gemini
              ∷ [];
          rationale = "";
        },
      ))
      required_use_cases

load_routing_config-IsUsable_example :
    (p : UseCasePolicy) × (Dict.get "resume_parsing" loaded ≡ some p) × IsUsable p
unfolding load_routing_config hire_os_be.Gateway.Provider.of_value Dict.has
load_routing_config-IsUsable_example =
    load_routing_config-IsUsable source loaded "resume_parsing" refl refl

-- Gemini is in a cooldown when groq's stream fails.
abbrev gemini_limited : Gateway
unfolding record_rate_limit
gemini_limited = record start { breaker = record_rate_limit init 900 gemini }

stream_chain-silent_example :
    (stream_chain world none prompts (tier groq ∷ tier gemini ∷ []) 0 gemini_limited).0
    ≡ record { out = []; ending = Ending.completed }
unfolding get_provider_client is_available record_rate_limit open_stream
    hire_os_be.Gateway.Client.stream_complete handle_provider_exc
stream_chain-silent_example =
    stream_chain-silent world none prompts (tier groq) (tier gemini) [] 0 gemini_limited _
      rate_limit_error refl refl refl (refl, tt)
