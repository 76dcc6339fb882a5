-- ===== src/Gateway/Streaming/Source.antt =====
-- Where the chunks of a streamed call come from.
use hire_os_be.Prelude.{
  ◌+◌, ◌++◌, ◌-◌, [], ap, arith, Bool-cases, get_elem?, inl, inr, length, List, ltb, none, not,
  Option, refl, some, String, subst, suc, true, zero, ℕ, ◌∙◌, ◌∷◌, ◌≡◌, ◌≢◌, ◌≤◌,
}
use hire_os_be.Prelude.{Exc, join, ok, Result-cases}
use hire_os_be.Gateway.Provider.{same, same_refl}
use hire_os_be.Gateway.Breaker.{fresh, is_available}
use hire_os_be.Gateway.Policy.{get_policy, Policies, ProviderChoice, UseCasePolicy}
use hire_os_be.Gateway.Client.{Chunks, Client, get_provider_client, stream_complete, World}
use hire_os_be.Gateway.Metrics.{is_dev_metrics_enabled, metric, Prompts}
use hire_os_be.Gateway.State.{Gateway, handle_provider_exc}
use hire_os_be.Gateway.Follows.{logged-handle_provider_exc}
use hire_os_be.Gateway.Streaming.{
  chunk, deliver, first_event, is_completed, open_stream, or_raise, run_stream, serve, stream_chain,
  timeout_of, total_chars, Yielded,
}
use native.Mathlib.Nat.{add-zero}
use hire_os_be.Gateway.Streaming.Laws.{First-cases}

-- What is delivered is a first part of the chunks, and all of them if the stream completes.
deliver-prefix :
    (wanted : Option ℕ) (l : List String) (end : Option Exc)
    → (rest : List String) × ((deliver wanted l end).out ++ rest ≡ l)
      × (is_completed (deliver wanted l end).ending ≡ true → rest ≡ [])
unfolding deliver
deliver-prefix none [] end = ([], refl, λ c. refl)
deliver-prefix (some n) [] end = ([], refl, λ c. refl)
deliver-prefix none (c ∷ cs) end =
    let (rest, e, done) = deliver-prefix none cs end in (rest, ap (λ l. c ∷ l) e, done)
deliver-prefix (some zero) (c ∷ cs) end = (cs, refl, λ c. cc)
deliver-prefix (some (suc n)) (c ∷ cs) end =
    let (rest, e, done) = deliver-prefix (some n) cs end in (rest, ap (λ l. c ∷ l) e, done)

first_event-chunk :
    (timeout : ℕ) (s : Chunks) (l : List String) (end : Option Exc)
    → first_event timeout s ≡ chunk l end
    → (l ≡ s.chunks) × (s.delay ≤ timeout)
unfolding first_event
first_event-chunk timeout s l end h = ground arith

module _ (w : World) where
  -- The one tier and the one stream that the chunks of a call are from, and the record of it.
  pub record Sourced (p : Prompts) (chain : List ProviderChoice) (tier : ℕ) (g : Gateway)
      (y : Yielded) (h : Gateway) : Type 0 where
    pub place : ℕ
    pub choice : ProviderChoice
    pub at : get_elem? chain place ≡ some choice
    pub client : Client
    pub constructed : get_provider_client w choice.provider choice.model ≡ ok client
    pub turn : ℕ
    pub rest : List String
    pub prefix : y.out ++ rest ≡ (stream_complete w client turn).chunks
    pub in_time : (stream_complete w client turn).delay ≤ timeout_of choice
    pub whole : is_completed y.ending ≡ true → (rest ≡ []) × (h.breaker choice.provider ≡ fresh)
    pub latency : ℕ
    pub ttft : ℕ
    pub recorded :
        h.logged
        ≡ metric
            (is_dev_metrics_enabled w.env)
            p
            choice.provider
            choice.model
            (join "" y.out)
            latency
            (some ttft)
            (ltb 0 (tier + place))
            (not (is_completed y.ending))
            none
            (total_chars y.out)
          ∷ g.logged

  next_tier :
      (p : Prompts) (c : ProviderChoice) (chain : List ProviderChoice) (tier : ℕ) (g g' : Gateway)
      (y : Yielded) (h : Gateway)
      → Sourced p chain (suc tier) g' y h
      → g'.logged ≡ g.logged
      → Sourced p (c ∷ chain) tier g y h
  next_tier p c chain tier g g' y h s same = record {
    place = suc s.place;
    choice = s.choice;
    at = s.at;
    client = s.client;
    constructed = s.constructed;
    turn = s.turn;
    rest = s.rest;
    prefix = s.prefix;
    in_time = s.in_time;
    whole = s.whole;
    latency = s.latency;
    ttft = s.ttft;
    recorded =
        let shift : suc tier + s.place ≡ tier + suc s.place = omega arith in
        let rec : (n : ℕ) → _ = λ n.
          metric (is_dev_metrics_enabled w.env) p s.choice.provider s.choice.model (join "" y.out)
            s.latency (some s.ttft) (ltb 0 n) (not (is_completed y.ending)) none
            (total_chars y.out) in
        subst (λ n. h.logged ≡ rec n ∷ g'.logged) shift s.recorded
        ∙ ap (λ l. rec (tier + suc s.place) ∷ l) same;
  }

  serve-Sourced :
      (wanted : Option ℕ) (p : Prompts) (c : ProviderChoice) (chain : List ProviderChoice)
      (tier : ℕ) (g : Gateway) (client : Client) (l : List String) (end : Option Exc)
      → get_provider_client w c.provider c.model ≡ ok client
      → (open_stream w c client g).0 ≡ chunk l end
      → Sourced p
          (c ∷ chain)
          tier
          g
          (serve w wanted p c tier g.now l end (open_stream w c client g).1).0
          (serve w wanted p c tier g.now l end (open_stream w c client g).1).1
  unfolding serve open_stream
  serve-Sourced wanted p c chain tier g client l end e f =
      let (rest, pre, done) = deliver-prefix wanted l end in
      let (same, soon) =
        first_event-chunk (timeout_of c) (stream_complete w client (length g.sent)) l end f in
      record {
        place = 0;
        choice = c;
        at = refl;
        client = client;
        constructed = e;
        turn = length g.sent;
        rest = rest;
        prefix = pre ∙ same;
        in_time = soon;
        whole = λ d. (done d, ground (arith, d, same_refl c.provider));
        latency =
            (open_stream w c client g).1.now
            + w.elapsed (length (open_stream w c client g).1.sent)
            - g.now;
        ttft = (open_stream w c client g).1.now - g.now;
        recorded = rw add-zero refl;
      }

  from_or_raise :
      (chain : List ProviderChoice) (e : Exc) (g : Gateway) (r : Yielded × Gateway)
      → (or_raise w chain e g r).0.out ≢ []
      → or_raise w chain e g r ≡ r
  from_or_raise [] e g r h = absurd (h refl)
  from_or_raise (c ∷ chain) e g r h = refl

  stream_chain-Sourced :
      (wanted : Option ℕ) (p : Prompts) (chain : List ProviderChoice) (tier : ℕ) (g : Gateway)
      → (stream_chain w wanted p chain tier g).0.out ≢ []
      → Sourced p chain tier g
          (stream_chain w wanted p chain tier g).0
          (stream_chain w wanted p chain tier g).1
  unfolding stream_chain
  stream_chain-Sourced wanted p [] tier g h = absurd (h refl)
  stream_chain-Sourced wanted p (c ∷ chain) tier g h =
      elim (Bool-cases (is_available g.breaker g.now c.provider)) [
        | inr skip ↦
            let s =
              stream_chain-Sourced wanted p chain (suc tier) g (rw (skip, stream_chain) at h) in
            rw (skip, stream_chain) (next_tier p c chain tier g g _ _ s refl)
        | inl free ↦ elim (Result-cases (get_provider_client w c.provider c.model)) [
          | inr (x, e) ↦
              let s =
                stream_chain-Sourced wanted p chain (suc tier) (handle_provider_exc x c.provider g)
                  (rw (free, e, stream_chain) at h) in
              rw (free, e, stream_chain)
                (next_tier p c chain tier g _ _ _ s (logged-handle_provider_exc x c.provider g))
          | inl (client, e) ↦ elim (First-cases (open_stream w c client g).0) [
            | inl f ↦ absurd ((rw (free, e, f, stream_chain) at h) refl)
            | inr (inl (x, f)) ↦
                let k = handle_provider_exc x c.provider (open_stream w c client g).1 in
                let r = stream_chain w wanted p chain (suc tier) k in
                let h' : (or_raise w chain x k r).0.out ≢ [] = rw (free, e, f, stream_chain) at h in
                let same = from_or_raise chain x k r h' in
                let s = stream_chain-Sourced wanted p chain (suc tier) k (rw same at h') in
                rw (free, e, f, stream_chain)
                  (rw same (
                    next_tier p c chain tier g k _ _ s
                      (logged-handle_provider_exc x c.provider (open_stream w c client g).1)))
            | inr (inr (l, end, f)) ↦
                rw (free, e, f, stream_chain)
                  (serve-Sourced wanted p c chain tier g client l end e f)
          ]
        ]
      ]

  -- All chunks that a streamed call yields are from one stream of one tier, from its first chunk on
  -- and with none left out, and that tier gave its first chunk in time. If the call completes, they are
  -- the whole stream and the provider's health record is clear. One metrics record is added: it names
  -- the tier, holds the concatenated chunks' length, and is marked as interrupted unless the call
  -- completes.
  pub run_stream-Sourced :
      (wanted : Option ℕ) (policies : Policies) (p : Prompts) (g : Gateway)
      → (run_stream w wanted policies p g).0.out ≢ []
      → (policy : UseCasePolicy) × (get_policy p.use_case policies ≡ ok policy)
        × Sourced p policy.chain 0 g
            (run_stream w wanted policies p g).0
            (run_stream w wanted policies p g).1
  unfolding run_stream
  run_stream-Sourced wanted policies p g h = elim (Result-cases (get_policy p.use_case policies)) [
    | inl (policy, e) ↦ (
      policy,
      e,
      rw (e, run_stream) (stream_chain-Sourced wanted p policy.chain 0 g (rw (e, run_stream) at h)),
    )
    | inr (x, e) ↦ absurd ((rw (e, run_stream) at h) refl)
  ]
