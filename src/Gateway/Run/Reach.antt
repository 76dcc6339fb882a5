-- ===== src/Gateway/Run/Reach.antt =====
-- Cooldowns, the number of requests, and what the fallback achieves, of a plain call.
use hire_os_be.Prelude.{
  ◌+◌, [], arith, Bool, Bool-cases, false, inl, inr, length, List, none, Option, refl, some, String,
  subst, suc, sym, true, ◌||◌, ℕ, ◌∷◌, ◌≡◌, ◌≤◌,
}
use hire_os_be.Prelude.{Exc, ok, raise, Result-cases}
use hire_os_be.Gateway.Provider.{Provider, same, same-eq}
use hire_os_be.Gateway.Breaker.{is_available}
use hire_os_be.Gateway.Policy.{get_policy, Policies, ProviderChoice, UseCasePolicy}
use hire_os_be.Gateway.Client.{Client, complete, get_provider_client, World}
use hire_os_be.Gateway.Metrics.{Prompts}
use hire_os_be.Gateway.State.{Gateway, request}
use hire_os_be.Gateway.Run.{attempt, run, run_from}
use hire_os_be.Gateway.Follows.{
  Follows, Follows-refl, handle_provider_exc-Touches, Touches, Touches-trans,
}
use hire_os_be.Gateway.Run.Laws.{attempt-Touches, run_from-Follows, sent-run_from}

module _ (w : World) where
  -- Every model of the provider can be constructed and always completes.
  abbrev pub IsHealthy : Provider → Type 0
  IsHealthy q =
      (model : Option String)
      → (client : Client) × (get_provider_client w q model ≡ ok client)
        × ((n : ℕ) → (text : String) × (complete w client n ≡ ok text))

  abbrev pub names : Provider → List ProviderChoice → Bool
  names q [] = false
  names q (c ∷ chain) = same c.provider q || names q chain

  healthy-attempt :
      (c : ProviderChoice) (g : Gateway)
      → IsHealthy c.provider
      → (text : String) × ((attempt w c g).0 ≡ ok text)
  unfolding attempt request
  healthy-attempt c g h =
      let (client, built, says) = h c.model in
      let (text, said) = says (length g.sent) in (text, rw (built, attempt) said)

  run_from-IsHealthy :
      (q : Provider) (p : Prompts) (chain : List ProviderChoice) (tier : ℕ) (last : Option Exc)
      (g : Gateway)
      → IsHealthy q
      → names q chain ≡ true
      → is_available g.breaker g.now q ≡ true
      → (text : String) × ((run_from w p chain tier last g).0 ≡ ok text)
  unfolding run_from
  run_from-IsHealthy q p [] tier last g h m a = cc
  run_from-IsHealthy q p (c ∷ chain) tier last g h m a =
      elim (Bool-cases (is_available g.breaker g.now c.provider)) [
        | inr skip ↦
            rw (skip, run_from)
              (run_from-IsHealthy q p chain (suc tier) last g h (later (differs skip) m) a)
        | inl free ↦ elim (Result-cases (attempt w c g).0) [
          | inl (text, e) ↦ (text, rw (free, e, run_from) refl)
          | inr (x, e) ↦
              let d = failing e in
              let t =
                Touches-trans (attempt-Touches w c g)
                  (handle_provider_exc-Touches x c.provider (attempt w c g).1) in
              rw (free, e, run_from)
                (run_from-IsHealthy q p chain (suc tier) (some x) _ h (later d m) (still t d))
        ]
      ]
    where
      later : same c.provider q ≡ false → names q (c ∷ chain) ≡ true → names q chain ≡ true
      later d m = ground arith

      differs : is_available g.breaker g.now c.provider ≡ false → same c.provider q ≡ false
      differs skip = elim (Bool-cases (same c.provider q)) [
        | inr d ↦ d
        | inl s ↦
            let skip' =
              subst (λ r. is_available g.breaker g.now r ≡ false) (same-eq c.provider q s) skip in
            cc (a, skip')
      ]

      failing : {x : Exc} → (attempt w c g).0 ≡ raise x → same c.provider q ≡ false
      failing e = elim (Bool-cases (same c.provider q)) [
        | inr d ↦ d
        | inl s ↦
            let (text, said) =
              healthy-attempt c g (subst IsHealthy (sym (same-eq c.provider q s)) h) in
            cc (e, said)
      ]

      still :
          {k : Gateway}
          → Touches c.provider g k
          → same c.provider q ≡ false
          → is_available k.breaker k.now q ≡ true
      still {k} t d =
          rw (t.healthy q d, is_available) (unfold is_available in ground (arith, t.on, a))

  -- Through a whole call, whatever fails on the way, no request is sent to a provider whose cooldown
  -- lasts past the end of the call, and its health record stays as it was.
  pub run-Follows :
      (policies : Policies) (p : Prompts) (g : Gateway) → Follows g (run w policies p g).1
  unfolding run
  run-Follows policies p g = elim (Result-cases (get_policy p.use_case policies)) [
    | inl (policy, e) ↦ rw (e, run) (run_from-Follows w p policy.chain 0 none g)
    | inr (x, e) ↦ rw (e, run) (Follows-refl g)
  ]

  -- If some tier's provider is not in cooldown and always completes, the call returns a text, however
  -- the other tiers fail.
  pub run-IsHealthy :
      (policies : Policies) (p : Prompts) (g : Gateway) (policy : UseCasePolicy) (q : Provider)
      → get_policy p.use_case policies ≡ ok policy
      → IsHealthy q
      → names q policy.chain ≡ true
      → is_available g.breaker g.now q ≡ true
      → (text : String) × ((run w policies p g).0 ≡ ok text)
  unfolding run
  run-IsHealthy policies p g policy q e h m a =
      rw (e, run) (run_from-IsHealthy q p policy.chain 0 none g h m a)

  -- A call sends at most one request for each tier of its chain.
  pub sent-run :
      (policies : Policies) (p : Prompts) (g : Gateway) (policy : UseCasePolicy)
      → get_policy p.use_case policies ≡ ok policy
      → length (run w policies p g).1.sent ≤ length g.sent + length policy.chain
  unfolding run
  sent-run policies p g policy e = rw (e, run) (sent-run_from w p policy.chain 0 none g)
