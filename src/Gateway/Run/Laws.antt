-- ===== src/Gateway/Run/Laws.antt =====
-- Fallback, cooldowns and metrics of a plain call.
use hire_os_be.Prelude.{
  ◌+◌, [], ap, arith, Bool-cases, inl, inr, length, List, none, Option, refl, some, String, suc, ℕ,
  ◌∷◌, ◌≡◌, ◌≤◌,
}
use hire_os_be.Prelude.{Exc, ok, Result-cases}
use hire_os_be.Gateway.Breaker.{is_available}
use hire_os_be.Gateway.Policy.{ProviderChoice}
use hire_os_be.Gateway.Client.{Client, complete, get_provider_client, World}
use hire_os_be.Gateway.Metrics.{Prompts}
use hire_os_be.Gateway.State.{Gateway, handle_provider_exc, log, request}
use hire_os_be.Gateway.Run.{attempt, run_from, succeed}
use hire_os_be.Gateway.Follows.{
  Follows, Follows-refl, Follows-trans, handle_provider_exc-Touches, logged-request,
  request-Touches, sent-handle_provider_exc, sent-request, Touches, Touches-Follows, Touches-trans,
}

module _ (w : World) where
  pub attempt-Touches : (c : ProviderChoice) (g : Gateway) → Touches c.provider g (attempt w c g).1
  unfolding attempt
  attempt-Touches c g = elim (Result-cases (get_provider_client w c.provider c.model)) [
    | inl (client, e) ↦ rw (e, attempt) (request-Touches w c.provider client g)
    | inr (x, e) ↦
        rw (e, attempt) (record { on = omega arith; quiet = λ q d. refl; healthy = λ q d. refl })
  ]

  pub succeed-Touches :
      (p : Prompts) (c : ProviderChoice) (tier start : ℕ) (text : String) (g : Gateway)
      → Touches c.provider g (succeed w p c tier start text g)
  unfolding succeed
  succeed-Touches p c tier start text g = record {
    on = omega arith;
    quiet = λ q d. refl;
    healthy = λ q d. ground arith;
  }

  pub run_from-Follows :
      (p : Prompts) (chain : List ProviderChoice) (tier : ℕ) (last : Option Exc) (g : Gateway)
      → Follows g (run_from w p chain tier last g).1
  unfolding run_from
  run_from-Follows p [] tier none g = Follows-refl g
  run_from-Follows p [] tier (some e) g = Follows-refl g
  run_from-Follows p (c ∷ chain) tier last g =
      elim (Bool-cases (is_available g.breaker g.now c.provider)) [
        | inr no_way ↦ rw (no_way, run_from) (run_from-Follows p chain (suc tier) last g)
        | inl free ↦ elim (Result-cases (attempt w c g).0) [
          | inl (text, e) ↦
              rw (free, e, run_from)
                (Touches-Follows free (
                  Touches-trans (attempt-Touches c g)
                    (succeed-Touches p c tier g.now text (attempt w c g).1)))
          | inr (x, e) ↦
              rw (free, e, run_from)
                (Follows-trans
                  (Touches-Follows free (
                    Touches-trans (attempt-Touches c g)
                      (handle_provider_exc-Touches x c.provider (attempt w c g).1)))
                  (run_from-Follows p chain (suc tier) (some x)
                    (handle_provider_exc x c.provider (attempt w c g).1)))
        ]
      ]

  sent-attempt :
      (c : ProviderChoice) (g : Gateway) → length (attempt w c g).1.sent ≤ length g.sent + 1
  unfolding attempt
  sent-attempt c g = elim (Result-cases (get_provider_client w c.provider c.model)) [
    | inl (client, e) ↦ rw (e, attempt) (sent-request w c.provider client g)
    | inr (x, e) ↦ rw (e, attempt) (omega arith)
  ]

  pub logged-attempt : (c : ProviderChoice) (g : Gateway) → (attempt w c g).1.logged ≡ g.logged
  unfolding attempt
  logged-attempt c g = elim (Result-cases (get_provider_client w c.provider c.model)) [
    | inl (client, e) ↦ rw (e, attempt) (logged-request w c.provider client g)
    | inr (x, e) ↦ rw (e, attempt) refl
  ]

  -- A text that an attempt returns is the completion of the tier's own client.
  pub attempt-eq-ok :
      (c : ProviderChoice) (g : Gateway) (text : String)
      → (attempt w c g).0 ≡ ok text
      → (client : Client) × (get_provider_client w c.provider c.model ≡ ok client)
        × (n : ℕ) × (complete w client n ≡ ok text)
  unfolding attempt request
  attempt-eq-ok c g text h = elim (Result-cases (get_provider_client w c.provider c.model)) [
    | inl (client, e) ↦ (client, e, length g.sent, ground arith)
    | inr (x, e) ↦ absurd (ground arith)
  ]

  -- A call that returns or raises has sent at most one request for each tier of the chain.
  pub sent-run_from :
      (p : Prompts) (chain : List ProviderChoice) (tier : ℕ) (last : Option Exc) (g : Gateway)
      → length (run_from w p chain tier last g).1.sent ≤ length g.sent + length chain
  unfolding run_from succeed log
  sent-run_from p [] tier none g = omega arith
  sent-run_from p [] tier (some e) g = omega arith
  sent-run_from p (c ∷ chain) tier last g =
      elim (Bool-cases (is_available g.breaker g.now c.provider)) [
        | inr skip ↦ rw (skip, run_from) (omega (arith, sent-run_from p chain (suc tier) last g))
        | inl free ↦ elim (Result-cases (attempt w c g).0) [
          | inl (text, e) ↦ rw (free, e, run_from) (omega (arith, sent-attempt c g))
          | inr (x, e) ↦
              rw (free, e, run_from)
                (omega (
                  arith,
                  sent-attempt c g,
                  sent-run_from p chain (suc tier) (some x)
                      (handle_provider_exc x c.provider (attempt w c g).1),
                  ap length (sent-handle_provider_exc x c.provider (attempt w c g).1),
                ))
        ]
      ]
