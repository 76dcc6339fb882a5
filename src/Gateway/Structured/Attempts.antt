-- ===== src/Gateway/Structured/Attempts.antt =====
-- Calls of one tier of the structured chain.
use hire_os_be.Prelude.{
  ◌+◌, ◌<◌, ap, arith, Bool-cases, inl, inr, length, Option, Option-cases, refl, some, String, suc,
  zero, ℕ, ◌∙◌, ◌≡◌, ◌≤◌,
}
use hire_os_be.Prelude.{ok, Result-cases}
use hire_os_be.Gateway.Provider.{Provider, same_refl}
use hire_os_be.Gateway.Breaker.{fresh, is_available}
use hire_os_be.Gateway.Policy.{ProviderChoice}
use hire_os_be.Gateway.Client.{Client, complete, get_provider_client, World}
use hire_os_be.Gateway.State.{Gateway, request}
use hire_os_be.Gateway.Follows.{
  Follows, Follows-refl, handle_provider_exc-Touches, logged-handle_provider_exc, logged-request,
  request-Touches, sent-handle_provider_exc, sent-request, Touches, Touches-Follows, Touches-trans,
}
use hire_os_be.Gateway.Structured.{structured_attempt, tries, validated}

module _ (w : World) {A : Type 0} (validate : String → Option A) where
  pub tries-Touches :
      (left attempt : ℕ) (p : Provider) (c : Client) (g : Gateway)
      → Touches p g (tries w validate left attempt p c g).1
  unfolding tries
  tries-Touches zero attempt p c g = record {
    on = omega arith;
    quiet = λ q d. refl;
    healthy = λ q d. ground arith;
  }
  tries-Touches (suc left) attempt p c g =
      elim (Option-cases (validated w validate (request w p c g).0)) [
        | inl e ↦
            rw (e, tries)
              (Touches-trans (request-Touches w p c g)
                (tries-Touches left (suc attempt) p c (request w p c g).1))
        | inr (a, e) ↦
            rw (e, tries)
              (Touches-trans (request-Touches w p c g)
                (record { on = omega arith; quiet = λ q d. refl; healthy = λ q d. ground arith }))
      ]

  pub sent-tries :
      (left attempt : ℕ) (p : Provider) (c : Client) (g : Gateway)
      → length (tries w validate left attempt p c g).1.sent ≤ length g.sent + left
  unfolding tries
  sent-tries zero attempt p c g = omega arith
  sent-tries (suc left) attempt p c g =
      elim (Option-cases (validated w validate (request w p c g).0)) [
        | inl e ↦
            rw (e, tries)
              (omega (
                arith,
                sent-request w p c g,
                sent-tries left (suc attempt) p c (request w p c g).1,
              ))
        | inr (a, e) ↦ rw (e, tries) (omega (arith, sent-request w p c g))
      ]

  -- What a value that the attempts return rests on.
  pub record Valid (p : Provider) (c : Client) (g h : Gateway) (a : A) (retries limit : ℕ)
      : Type 0 where
    pub turn : ℕ
    pub raw : String
    pub answered : complete w c turn ≡ ok raw
    pub accepted : validate raw ≡ some a
    pub few : retries < limit
    pub cleared : h.breaker p ≡ fresh
    pub unlogged : h.logged ≡ g.logged

  validated-eq-some :
      (p : Provider) (c : Client) (g : Gateway) (b : A)
      → validated w validate (request w p c g).0 ≡ some b
      → (raw : String) × (complete w c (length g.sent) ≡ ok raw) × (validate raw ≡ some b)
  unfolding validated request
  validated-eq-some p c g b e = elim (Result-cases (complete w c (length g.sent))) [
    | inl (raw, said) ↦ (raw, said, rw (said, validated) at e)
    | inr (x, said) ↦ absurd (ground (arith, rw (said, validated) at e))
  ]

  tries-Valid :
      (left attempt : ℕ) (p : Provider) (c : Client) (g : Gateway) (a : A) (n : ℕ)
      → (tries w validate left attempt p c g).0 ≡ some (a, n)
      → Valid p c g (tries w validate left attempt p c g).1 a n (attempt + left)
  unfolding tries
  tries-Valid zero attempt p c g a n h = absurd (ground arith)
  tries-Valid (suc left) attempt p c g a n h =
      elim (Option-cases (validated w validate (request w p c g).0)) [
        | inl e ↦
            let v =
              tries-Valid left (suc attempt) p c (request w p c g).1 a n (rw (e, tries) at h) in
            rw (e, tries)
              (record {
                turn = v.turn;
                raw = v.raw;
                answered = v.answered;
                accepted = v.accepted;
                few = omega (arith, v.few);
                cleared = v.cleared;
                unlogged = v.unlogged ∙ logged-request w p c g;
              })
        | inr (b, e) ↦
            let found : (◌≡◌ {A = Option (A × ℕ)} (some (b, attempt)) (some (a, n))) =
              rw (e, tries) at h in
            let (raw, said, passed) = validated-eq-some p c g b e in
            rw (e, tries)
              (record {
                turn = length g.sent;
                raw = raw;
                answered = said;
                accepted = passed ∙ ground arith;
                few = ground arith;
                cleared = ground (arith, same_refl p);
                unlogged = logged-request w p c g;
              })
      ]

  pub structured_attempt-Follows :
      (c : ProviderChoice) (g : Gateway) → Follows g (structured_attempt w validate c g).1
  unfolding structured_attempt
  structured_attempt-Follows c g = elim (Bool-cases (is_available g.breaker g.now c.provider)) [
    | inr skip ↦ rw (skip, structured_attempt) (Follows-refl g)
    | inl free ↦ elim (Result-cases (get_provider_client w c.provider c.model)) [
      | inl (client, e) ↦
          rw (free, e, structured_attempt)
            (Touches-Follows free (tries-Touches 2 0 c.provider client g))
      | inr (x, e) ↦
          rw (free, e, structured_attempt)
            (Touches-Follows free (handle_provider_exc-Touches x c.provider g))
    ]
  ]

  pub sent-structured_attempt :
      (c : ProviderChoice) (g : Gateway)
      → length (structured_attempt w validate c g).1.sent ≤ length g.sent + 2
  unfolding structured_attempt
  sent-structured_attempt c g = elim (Bool-cases (is_available g.breaker g.now c.provider)) [
    | inr skip ↦ rw (skip, structured_attempt) (omega arith)
    | inl free ↦ elim (Result-cases (get_provider_client w c.provider c.model)) [
      | inl (client, e) ↦ rw (free, e, structured_attempt) (sent-tries 2 0 c.provider client g)
      | inr (x, e) ↦
          rw (free, e, structured_attempt)
            (omega (arith, ap length (sent-handle_provider_exc x c.provider g)))
    ]
  ]

  -- The value came from a client that the tier's provider and model give, within two attempts.
  pub structured_attempt-Valid :
      (c : ProviderChoice) (g : Gateway) (a : A) (n : ℕ)
      → (structured_attempt w validate c g).0 ≡ some (a, n)
      → (client : Client) × (get_provider_client w c.provider c.model ≡ ok client)
        × Valid c.provider client g (structured_attempt w validate c g).1 a n 2
  unfolding structured_attempt
  structured_attempt-Valid c g a n h = elim (Bool-cases (is_available g.breaker g.now c.provider)) [
    | inr skip ↦ absurd (ground (arith, rw (skip, structured_attempt) at h))
    | inl free ↦ elim (Result-cases (get_provider_client w c.provider c.model)) [
      | inl (client, e) ↦ (
        client,
        e,
        rw (free, e, structured_attempt)
            (tries-Valid 2 0 c.provider client g a n (rw (free, e, structured_attempt) at h)),
      )
      | inr (x, e) ↦ absurd (ground (arith, rw (free, e, structured_attempt) at h))
    ]
  ]

  logged-tries :
      (left attempt : ℕ) (p : Provider) (c : Client) (g : Gateway)
      → (tries w validate left attempt p c g).1.logged ≡ g.logged
  unfolding tries
  logged-tries zero attempt p c g = refl
  logged-tries (suc left) attempt p c g =
      elim (Option-cases (validated w validate (request w p c g).0)) [
        | inl e ↦
            rw (e, tries)
              (logged-tries left (suc attempt) p c (request w p c g).1 ∙ logged-request w p c g)
        | inr (a, e) ↦ rw (e, tries) (logged-request w p c g)
      ]

  pub logged-structured_attempt :
      (c : ProviderChoice) (g : Gateway) → (structured_attempt w validate c g).1.logged ≡ g.logged
  unfolding structured_attempt
  logged-structured_attempt c g = elim (Bool-cases (is_available g.breaker g.now c.provider)) [
    | inr skip ↦ rw (skip, structured_attempt) refl
    | inl free ↦ elim (Result-cases (get_provider_client w c.provider c.model)) [
      | inl (client, e) ↦ rw (free, e, structured_attempt) (logged-tries 2 0 c.provider client g)
      | inr (x, e) ↦ rw (free, e, structured_attempt) (logged-handle_provider_exc x c.provider g)
    ]
  ]
