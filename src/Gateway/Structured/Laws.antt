-- ===== src/Gateway/Structured/Laws.antt =====
-- Attempts, retries and fallback of a structured call.
use hire_os_be.Prelude.{
  ◌*◌, ◌+◌, ◌-◌, ◌<◌, [], arith, false, get_elem?, inl, inr, length, List, ltb, none, Option,
  Option-cases, refl, some, String, subst, suc, ℕ, ◌∙◌, ◌∷◌, ◌≡◌, ◌≤◌,
}
use hire_os_be.Prelude.{ok, Result-cases, str_len}
use hire_os_be.Gateway.Breaker.{fresh}
use hire_os_be.Gateway.Policy.{get_policy, Policies, ProviderChoice, UseCasePolicy}
use hire_os_be.Gateway.Client.{Client, complete, get_provider_client, World}
use hire_os_be.Gateway.Metrics.{is_dev_metrics_enabled, metric, Prompts}
use hire_os_be.Gateway.State.{Gateway, log}
use hire_os_be.Gateway.Follows.{Follows, Follows-refl, Follows-trans}
use hire_os_be.Gateway.Structured.{Parsed, run_structured, structured_attempt, structured_chain}
use hire_os_be.Gateway.Structured.Attempts.{
  logged-structured_attempt, sent-structured_attempt, structured_attempt-Follows,
  structured_attempt-Valid,
}

module _ (w : World) {A : Type 0} (validate : String → Option A) where
  structured_chain-Follows :
      (chain : List ProviderChoice) (tier : ℕ) (g : Gateway)
      → Follows g (structured_chain w validate chain tier g).1
  unfolding structured_chain
  structured_chain-Follows [] tier g = Follows-refl g
  structured_chain-Follows (c ∷ chain) tier g =
      elim (Option-cases (structured_attempt w validate c g).0) [
        | inl e ↦
            rw (e, structured_chain)
              (Follows-trans (structured_attempt-Follows w validate c g)
                (structured_chain-Follows chain (suc tier) (structured_attempt w validate c g).1))
        | inr ((a, n), e) ↦ rw (e, structured_chain) (structured_attempt-Follows w validate c g)
      ]

  sent-structured_chain :
      (chain : List ProviderChoice) (tier : ℕ) (g : Gateway)
      → length (structured_chain w validate chain tier g).1.sent ≤ length g.sent + 2 * length chain
  unfolding structured_chain
  sent-structured_chain [] tier g = omega arith
  sent-structured_chain (c ∷ chain) tier g =
      elim (Option-cases (structured_attempt w validate c g).0) [
        | inl e ↦
            rw (e, structured_chain)
              (omega (
                arith,
                sent-structured_attempt w validate c g,
                sent-structured_chain chain (suc tier) (structured_attempt w validate c g).1,
              ))
        | inr ((a, n), e) ↦
            rw (e, structured_chain) (omega (arith, sent-structured_attempt w validate c g))
      ]

  -- A structured call sends at most two requests for each tier of its chain.
  pub sent-run_structured :
      (dump : A → String) (policies : Policies) (p : Prompts) (g : Gateway) (policy : UseCasePolicy)
      → get_policy p.use_case policies ≡ ok policy
      → length (run_structured w validate dump policies p g).1.sent
        ≤ length g.sent + 2 * length policy.chain
  unfolding run_structured log
  sent-run_structured dump policies p g policy e =
      elim (Result-cases (structured_chain w validate policy.chain 0 g).0) [
        | inl (s, r) ↦ rw (e, r, run_structured) (sent-structured_chain policy.chain 0 g)
        | inr (x, r) ↦ rw (e, r, run_structured) (sent-structured_chain policy.chain 0 g)
      ]

  -- Through a whole structured call no request is sent to a provider whose cooldown lasts past the
  -- end of the call, and its health record stays as it was.
  pub run_structured-Follows :
      (dump : A → String) (policies : Policies) (p : Prompts) (g : Gateway)
      → Follows g (run_structured w validate dump policies p g).1
  unfolding run_structured log
  run_structured-Follows dump policies p g = elim (Result-cases (get_policy p.use_case policies)) [
    | inr (x, e) ↦ rw (e, run_structured) (Follows-refl g)
    | inl (policy, e) ↦ elim (Result-cases (structured_chain w validate policy.chain 0 g).0) [
      | inl (s, r) ↦
          let f = structured_chain-Follows policy.chain 0 g in
          rw (e, r, run_structured) (record { later = f.later; spared = f.spared })
      | inr (x, r) ↦ rw (e, r, run_structured) (structured_chain-Follows policy.chain 0 g)
    ]
  ]

  -- What the loop over the chain returns: the value, the tier that gave it, and its retries.
  pub record Accepted (chain : List ProviderChoice) (tier : ℕ) (g h : Gateway) (s : Parsed A)
      : Type 0 where
    pub place : ℕ
    pub at : get_elem? chain place ≡ some s.choice
    pub counted : s.tier ≡ tier + place
    pub client : Client
    pub constructed : get_provider_client w s.choice.provider s.choice.model ≡ ok client
    pub turn : ℕ
    pub raw : String
    pub answered : complete w client turn ≡ ok raw
    pub accepted : validate raw ≡ some s.parsed
    pub few : s.retries < 2
    pub cleared : h.breaker s.choice.provider ≡ fresh
    pub unlogged : h.logged ≡ g.logged

  structured_chain-Accepted :
      (chain : List ProviderChoice) (tier : ℕ) (g : Gateway) (s : Parsed A)
      → (structured_chain w validate chain tier g).0 ≡ ok s
      → Accepted chain tier g (structured_chain w validate chain tier g).1 s
  unfolding structured_chain
  structured_chain-Accepted [] tier g s h = cc
  structured_chain-Accepted (c ∷ chain) tier g s h =
      elim (Option-cases (structured_attempt w validate c g).0) [
        | inl e ↦
            let t =
              structured_chain-Accepted chain (suc tier) (structured_attempt w validate c g).1 s
                (rw (e, structured_chain) at h) in
            rw (e, structured_chain)
              (record {
                place = suc t.place;
                at = t.at;
                counted = omega (arith, t.counted);
                client = t.client;
                constructed = t.constructed;
                turn = t.turn;
                raw = t.raw;
                answered = t.answered;
                accepted = t.accepted;
                few = t.few;
                cleared = t.cleared;
                unlogged = t.unlogged ∙ logged-structured_attempt w validate c g;
              })
        | inr ((a, n), e) ↦
            let h' = structured_attempt w validate c g in
            let s' : Parsed A = record {
              parsed = a;
              choice = c;
              latency = h'.1.now - g.now;
              tier = tier;
              retries = n;
            } in
            let same : s' ≡ s = ground (arith, rw (e, structured_chain) at h) in
            let (client, built, v) = structured_attempt-Valid w validate c g a n e in
            rw (e, structured_chain)
              (subst (λ s. Accepted (c ∷ chain) tier g (structured_attempt w validate c g).1 s) same
                (record {
                  place = 0;
                  at = refl;
                  counted = omega arith;
                  client = client;
                  constructed = built;
                  turn = v.turn;
                  raw = v.raw;
                  answered = v.answered;
                  accepted = v.accepted;
                  few = v.few;
                  cleared = v.cleared;
                  unlogged = v.unlogged;
                }))
      ]

  -- A structured call that returns a value got it from a completion of a tier of its chain that the
  -- schema accepts, with at most one retry on that tier, cleared the provider's health record, and
  -- added one metrics record with the tier's provider and its retries, marked as a fallback unless
  -- the tier is the first.
  pub run_structured-Accepted :
      (dump : A → String) (policies : Policies) (p : Prompts) (g : Gateway) (a : A)
      → (run_structured w validate dump policies p g).0 ≡ ok a
      → (policy : UseCasePolicy) × (get_policy p.use_case policies ≡ ok policy)
        × (s : Parsed A) × (s.parsed ≡ a)
        × Accepted policy.chain 0 g (structured_chain w validate policy.chain 0 g).1 s
        × ((run_structured w validate dump policies p g).1.breaker s.choice.provider ≡ fresh)
        × ((run_structured w validate dump policies p g).1.logged
            ≡ metric
                (is_dev_metrics_enabled w.env)
                p
                s.choice.provider
                s.choice.model
                (dump a)
                s.latency
                none
                (ltb 0 s.tier)
                false
                (some s.retries)
                (str_len (dump a))
              ∷ g.logged)
  unfolding run_structured log
  run_structured-Accepted dump policies p g a h =
      elim (Result-cases (get_policy p.use_case policies)) [
        | inr (x, e) ↦ absurd (ground (arith, rw (e, run_structured) at h))
        | inl (policy, e) ↦ elim (Result-cases (structured_chain w validate policy.chain 0 g).0) [
          | inr (x, r) ↦ absurd (ground (arith, rw (e, r, run_structured) at h))
          | inl (s, r) ↦
              let t = structured_chain-Accepted policy.chain 0 g s r in
              let same : s.parsed ≡ a = ground (arith, rw (e, r, run_structured) at h) in
              (
                policy,
                e,
                s,
                same,
                t,
                rw (e, r, run_structured) t.cleared,
                rw (e, r, run_structured) (rw same (rw t.unlogged refl)),
              )
        ]
      ]
