-- ===== src/Gateway/Streaming/Laws.antt =====
-- Cooldowns, the number of requests and the ways to end of a streamed call.
use hire_os_be.Prelude.{
  [], All, ap, arith, Bool-cases, false, inl, inr, List, Option, refl, String, suc, true, ℕ, ◌∷◌,
  ◌≡◌, ◌⊎◌,
}
use hire_os_be.Prelude.{Exc, ok, Result-cases}
use hire_os_be.Gateway.Breaker.{is_available}
use hire_os_be.Gateway.Policy.{get_policy, Policies, ProviderChoice}
use hire_os_be.Gateway.Client.{Client, get_provider_client, World}
use hire_os_be.Gateway.Metrics.{Prompts}
use hire_os_be.Gateway.State.{Gateway, handle_provider_exc}
use hire_os_be.Gateway.Follows.{
  Follows, Follows-refl, Follows-trans, handle_provider_exc-Touches, target-sent, Touches,
  Touches-Follows, Touches-trans,
}
use hire_os_be.Gateway.Streaming.{
  chunk, completed, failing, First, open_stream, or_raise, run_stream, serve, stop, stream_chain,
  Yielded,
}

pub First-cases :
    (f : First)
    → (f ≡ stop)
      ⊎ ((e : Exc) × (f ≡ failing e))
      ⊎ ((l : List String) × (e : Option Exc) × (f ≡ chunk l e))
First-cases stop = inl refl
First-cases (failing e) = inr (inl (e, refl))
First-cases (chunk l e) = inr (inr (l, e, refl))

module _ (w : World) where
  pub open_stream-Touches :
      (c : ProviderChoice) (client : Client) (g : Gateway)
      → Touches c.provider g (open_stream w c client g).1
  unfolding open_stream
  open_stream-Touches c client g = record {
    on = omega arith;
    quiet = λ q d. target-sent c.provider client g.sent q d;
    healthy = λ q d. refl;
  }

  serve-Touches :
      (wanted : Option ℕ) (p : Prompts) (c : ProviderChoice) (tier start : ℕ) (l : List String)
      (end : Option Exc) (g : Gateway)
      → Touches c.provider g (serve w wanted p c tier start l end g).1
  unfolding serve
  serve-Touches wanted p c tier start l end g = record {
    on = omega arith;
    quiet = λ q d. refl;
    healthy = λ q d. ground arith;
  }

  Follows-or_raise :
      {g h : Gateway} (r : Yielded × Gateway) (chain : List ProviderChoice) (e : Exc)
      → Follows g h
      → Follows g r.1
      → Follows g (or_raise w chain e h r).1
  Follows-or_raise r [] e a b = a
  Follows-or_raise r (c ∷ chain) e a b = b

  stream_chain-Follows :
      (wanted : Option ℕ) (p : Prompts) (chain : List ProviderChoice) (tier : ℕ) (g : Gateway)
      → Follows g (stream_chain w wanted p chain tier g).1
  unfolding stream_chain
  stream_chain-Follows wanted p [] tier g = Follows-refl g
  stream_chain-Follows wanted p (c ∷ chain) tier g =
      elim (Bool-cases (is_available g.breaker g.now c.provider)) [
        | inr skip ↦ rw (skip, stream_chain) (stream_chain-Follows wanted p chain (suc tier) g)
        | inl free ↦ elim (Result-cases (get_provider_client w c.provider c.model)) [
          | inr (x, e) ↦
              rw (free, e, stream_chain)
                (Follows-trans (Touches-Follows free (handle_provider_exc-Touches x c.provider g)) (
                  stream_chain-Follows wanted p chain (suc tier)
                    (handle_provider_exc x c.provider g)))
          | inl (client, e) ↦ elim (First-cases (open_stream w c client g).0) [
            | inl f ↦
                rw (free, e, f, stream_chain)
                  (Touches-Follows free (open_stream-Touches c client g))
            | inr (inl (x, f)) ↦
                let h = handle_provider_exc x c.provider (open_stream w c client g).1 in
                let step : Follows g h = Touches-Follows free (
                  Touches-trans (open_stream-Touches c client g)
                    (handle_provider_exc-Touches x c.provider (open_stream w c client g).1)) in
                rw (free, e, f, stream_chain)
                  (Follows-or_raise (stream_chain w wanted p chain (suc tier) h) chain x step
                    (Follows-trans step (stream_chain-Follows wanted p chain (suc tier) h)))
            | inr (inr (l, end, f)) ↦
                rw (free, e, f, stream_chain)
                  (Touches-Follows free (
                    Touches-trans (open_stream-Touches c client g)
                      (serve-Touches wanted p c tier g.now l end (open_stream w c client g).1)))
          ]
        ]
      ]

  -- Through a whole streamed call, however it ends, no request is sent to a provider whose cooldown
  -- lasts past the end of the call, and its health record stays as it was.
  pub run_stream-Follows :
      (wanted : Option ℕ) (policies : Policies) (p : Prompts) (g : Gateway)
      → Follows g (run_stream w wanted policies p g).1
  unfolding run_stream
  run_stream-Follows wanted policies p g = elim (Result-cases (get_policy p.use_case policies)) [
    | inl (policy, e) ↦ rw (e, run_stream) (stream_chain-Follows wanted p policy.chain 0 g)
    | inr (x, e) ↦ rw (e, run_stream) (Follows-refl g)
  ]

  abbrev pub IsCooling : Gateway → ProviderChoice → Type 0
  IsCooling g c = is_available g.breaker g.now c.provider ≡ false

  stream_chain-IsCooling :
      (wanted : Option ℕ) (p : Prompts) (chain : List ProviderChoice) (tier : ℕ) (g : Gateway)
      → All (IsCooling g) chain
      → stream_chain w wanted p chain tier g ≡ (record { out = []; ending = completed }, g)
  unfolding stream_chain
  stream_chain-IsCooling wanted p [] tier g a = refl
  stream_chain-IsCooling wanted p (c ∷ chain) tier g a =
      rw (a.0, stream_chain) (stream_chain-IsCooling wanted p chain (suc tier) g a.1)

  -- If a tier fails before its first chunk, or is too slow, and there are further tiers which are all
  -- in cooldown by then, the stream ends as if complete: it has no chunk and raises nothing.
  pub stream_chain-silent :
      (wanted : Option ℕ) (p : Prompts) (c next : ProviderChoice) (chain : List ProviderChoice)
      (tier : ℕ) (g : Gateway) (client : Client) (x : Exc)
      → is_available g.breaker g.now c.provider ≡ true
      → get_provider_client w c.provider c.model ≡ ok client
      → (open_stream w c client g).0 ≡ failing x
      → All
          (IsCooling (handle_provider_exc x c.provider (open_stream w c client g).1))
          (next ∷ chain)
      → (stream_chain w wanted p (c ∷ next ∷ chain) tier g).0
        ≡ record { out = []; ending = completed }
  unfolding stream_chain
  stream_chain-silent wanted p c next chain tier g client x a e f cooling =
      rw (a, e, f, stream_chain)
        (ap (λ (r : Yielded × Gateway). r.0)
          (stream_chain-IsCooling wanted p (next ∷ chain) (suc tier)
            (handle_provider_exc x c.provider (open_stream w c client g).1) cooling))
