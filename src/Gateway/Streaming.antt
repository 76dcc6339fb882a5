-- ===== src/Gateway/Streaming.antt =====
-- `run_stream` and `_stream_chain` of ai-service/app/model_gateway/gateway.py. An async generator
-- is run to its end, against a consumer that may close it at some chunk; closing it closes the
-- generators that it delegates to.
pub mod Laws
pub mod Source
use hire_os_be.Prelude.{
  ◌+◌, ◌-◌, [], ap, Bool, false, if◌then◌else◌, length, List, ltb, none, not, Option, some, String,
  suc, true, zero, ℕ, ◌∷◌,
}
use hire_os_be.Prelude.{Exc, join, ok, raise, str_len, timeout_error}
use hire_os_be.Gateway.Provider.{Provider}
use hire_os_be.Gateway.Breaker.{is_available, record_success}
use hire_os_be.Gateway.Policy.{get_policy, Policies, ProviderChoice}
use hire_os_be.Gateway.Client.{Chunks, Client, get_provider_client, stream_complete, World}
use hire_os_be.Gateway.Metrics.{is_dev_metrics_enabled, metric, Prompts}
use hire_os_be.Gateway.State.{Gateway, handle_provider_exc, log, target}

-- `_FIRST_CHUNK_TIMEOUT_S`
abbrev pub first_chunk_timeout : ℕ
first_chunk_timeout = 4_000

-- How a generator ends: by itself, by an exception, or closed by its consumer.
pub data Ending : Type 0 where
  completed closed : Ending
  failed : Exc → Ending

pub record Yielded : Type 0 where
  pub out : List String
  pub ending : Ending

abbrev pub ends : Option Exc → Ending
ends none = completed
ends (some e) = failed e

-- The consumer takes every chunk, or closes the generator on receiving the n-th, counted from 0.
unfoldable pub deliver : Option ℕ → List String → Option Exc → Yielded
deliver wanted [] end = record { out = []; ending = ends end }
deliver none (c ∷ cs) end = let rest = deliver none cs end in record rest { out = c ∷ rest.out }
deliver (some zero) (c ∷ cs) end = record { out = c ∷ []; ending = closed }
deliver (some (suc n)) (c ∷ cs) end =
    let rest = deliver (some n) cs end in record rest { out = c ∷ rest.out }

abbrev pub is_completed : Ending → Bool
is_completed completed = true
is_completed _ = false

unfoldable pub total_chars : List String → ℕ
total_chars [] = 0
total_chars (c ∷ cs) = str_len c + total_chars cs

-- What `wait_for(stream.__anext__(), timeout)` gives: the stream from its first chunk on,
-- StopAsyncIteration, or an exception.
pub data First : Type 0 where
  chunk : List String → Option Exc → First
  stop : First
  failing : Exc → First

unfoldable pub first_event : ℕ → Chunks → First
first_event timeout s = if ltb timeout s.delay then failing timeout_error else elim s.chunks [
  | c ∷ cs ↦ chunk (c ∷ cs) s.end
  | [] ↦ elim s.end [ none ↦ stop | some e ↦ failing e ]
]

abbrev pub timeout_of : ProviderChoice → ℕ
timeout_of c = elim c.timeout [ none ↦ first_chunk_timeout | some t ↦ t.deadline ]

-- The time that the wait takes.
abbrev pub waited : ℕ → Chunks → ℕ
waited timeout s = if ltb timeout s.delay then timeout else s.delay

module _ (w : World) where
  -- Opening the stream and waiting for its first event.
  unfoldable pub open_stream : ProviderChoice → Client → Gateway → First × Gateway
  unfolding first_event
  open_stream c client g =
      let s = stream_complete w client (length g.sent) in
      (
        first_event (timeout_of c) s,
        record g { now = g.now + waited (timeout_of c) s; sent = target c.provider client g.sent },
      )

  -- The `try` and `finally` around the chunks: `start` is the time of the request.
  unfoldable pub serve :
      Option ℕ
      → Prompts
      → ProviderChoice
      → (tier start : ℕ) → List String
      → Option Exc
      → Gateway
      → Yielded × Gateway
  unfolding deliver total_chars record_success log
  serve wanted p c tier start chunks end g =
      let y = deliver wanted chunks end in
      let later = g.now + w.elapsed (length g.sent) in
      let breaker =
        if is_completed y.ending then record_success g.breaker c.provider else g.breaker in
      (
        y,
        log
            (metric (is_dev_metrics_enabled w.env) p c.provider c.model (join "" y.out)
              (later - start) (some (g.now - start)) (ltb 0 tier) (not (is_completed y.ending)) none
              (total_chars y.out))
            (record g { now = later; breaker = breaker }),
      )

  -- After a failure the next tiers are tried; the last tier's exception is raised.
  abbrev pub or_raise : List ProviderChoice → Exc → Gateway → Yielded × Gateway → Yielded × Gateway
  or_raise [] e g rest = (record { out = []; ending = failed e }, g)
  or_raise (c ∷ chain) e g rest = rest

  -- With no tier left the generator just returns; so does the last tier when its client cannot be
  -- constructed, which is the call on the empty chain.
  unfoldable pub stream_chain :
      Option ℕ → Prompts → List ProviderChoice → ℕ → Gateway → Yielded × Gateway
  unfolding is_available open_stream serve handle_provider_exc
  stream_chain wanted p [] tier g = (record { out = []; ending = completed }, g)
  stream_chain wanted p (c ∷ chain) tier g = elim (is_available g.breaker g.now c.provider) [
    | false ↦ stream_chain wanted p chain (suc tier) g
    | true ↦ elim (get_provider_client w c.provider c.model) [
      | raise e ↦ stream_chain wanted p chain (suc tier) (handle_provider_exc e c.provider g)
      | ok client ↦
          let (first, g') = open_stream c client g in
          elim first [
            | stop ↦ (record { out = []; ending = completed }, g')
            | failing e ↦
                let g'' = handle_provider_exc e c.provider g' in
                let rest = stream_chain wanted p chain (suc tier) g'' in or_raise chain e g'' rest
            | chunk chunks end ↦ serve wanted p c tier g.now chunks end g'
          ]
    ]
  ]

  unfoldable pub run_stream : Option ℕ → Policies → Prompts → Gateway → Yielded × Gateway
  unfolding stream_chain
  run_stream wanted policies p g = elim (get_policy p.use_case policies) [
    | raise e ↦ (record { out = []; ending = failed e }, g)
    | ok policy ↦ stream_chain wanted p policy.chain 0 g
  ]
