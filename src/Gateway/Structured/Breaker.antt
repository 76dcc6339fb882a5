-- ===== src/Gateway/Structured/Breaker.antt =====
-- How a structured tier that fails reports its failure to the circuit breaker.
use hire_os_be.Prelude.{
  ap, arith, inl, inr, none, Option, Option-cases, refl, String, suc, true, zero, ℕ, ◌∙◌, ◌≡◌,
}
use hire_os_be.Prelude.{ok}
use hire_os_be.Gateway.Provider.{Provider}
use hire_os_be.Gateway.Breaker.{Breaker, is_available, record_failure}
use hire_os_be.Gateway.Policy.{ProviderChoice}
use hire_os_be.Gateway.Client.{Client, get_provider_client, World}
use hire_os_be.Gateway.State.{Gateway, request}
use hire_os_be.Gateway.Structured.{structured_attempt, tries, validated}

module _ (w : World) {A : Type 0} (validate : String → Option A) where
  breaker-request :
      (p : Provider) (c : Client) (g : Gateway) → (request w p c g).1.breaker ≡ g.breaker
  unfolding request
  breaker-request p c g = refl

  tries-none :
      (left attempt : ℕ) (p : Provider) (c : Client) (g : Gateway)
      → (tries w validate left attempt p c g).0 ≡ none
      → (tries w validate left attempt p c g).1.breaker
        ≡ record_failure g.breaker (tries w validate left attempt p c g).1.now p
  unfolding tries
  tries-none zero attempt p c g h = refl
  tries-none (suc left) attempt p c g h =
      elim (Option-cases (validated w validate (request w p c g).0)) [
        | inl e ↦
            rw (e, tries)
              (tries-none left (suc attempt) p c (request w p c g).1 (rw (e, tries) at h)
                ∙ ap
                    (λ (b : Breaker).
                      record_failure b
                        (tries w validate left (suc attempt) p c (request w p c g).1).1.now p)
                    (breaker-request p c g))
        | inr (a, e) ↦ absurd (ground (arith, rw (e, tries) at h))
      ]

  -- When both attempts on an available tier fail, for whatever reasons, the breaker is told of one
  -- plain failure, at the end of the second: it is not told of a rate limit.
  pub structured_attempt-none :
      (c : ProviderChoice) (client : Client) (g : Gateway)
      → is_available g.breaker g.now c.provider ≡ true
      → get_provider_client w c.provider c.model ≡ ok client
      → (structured_attempt w validate c g).0 ≡ none
      → (structured_attempt w validate c g).1.breaker
        ≡ record_failure g.breaker (structured_attempt w validate c g).1.now c.provider
  unfolding structured_attempt
  structured_attempt-none c client g a e h =
      rw (a, e, structured_attempt)
        (tries-none 2 0 c.provider client g (rw (a, e, structured_attempt) at h))
