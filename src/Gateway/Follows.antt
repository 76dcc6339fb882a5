-- ===== src/Gateway/Follows.antt =====
-- How steps of a call relate the gateway's states: cooldowns hold across them. The provider error
-- handling and the requests of ai-service/app/model_gateway/gateway.py are such steps.
use hire_os_be.Prelude.{
  ◌+◌, ◌<◌, arith, Bool-cases, false, inl, inr, length, List, ltb, not, refl, subst, true, ◌∙◌, ◌≡◌,
  ◌≤◌,
}
use hire_os_be.Prelude.{Exc, rate_limit_error}
use hire_os_be.Gateway.Provider.{Provider, same, same-eq}
use hire_os_be.Gateway.Breaker.{is_available}
use hire_os_be.Gateway.Client.{api, Client, inference, unimplemented, World}
use hire_os_be.Gateway.State.{Gateway, handle_provider_exc, request, sent_to, target}

-- What every step of a call may change: time goes on; and nothing is sent to a provider, nor is
-- its health record changed, before its cooldown is over.
pub record Follows (g h : Gateway) : Type 0 where
  pub later : g.now ≤ h.now
  pub spared :
      (q : Provider)
      → h.now < (g.breaker q).cooldown_until
      → (sent_to q h.sent ≡ sent_to q g.sent) × (h.breaker q ≡ g.breaker q)

pub Follows-refl : (g : Gateway) → Follows g g
Follows-refl g = record { later = omega arith; spared = λ q l. (refl, refl) }

pub Follows-trans : {g h k : Gateway} → Follows g h → Follows h k → Follows g k
Follows-trans {g} {h} {k} a b = record {
  later = omega (arith, a.later, b.later);
  spared = λ q l.
      let (s1, e1) = a.spared q (omega (arith, b.later)) in
      let (s2, e2) = b.spared q (rw e1 l) in (s2 ∙ s1, e2 ∙ e1);
}

-- A step that concerns one provider only.
pub record Touches (p : Provider) (g h : Gateway) : Type 0 where
  pub on : g.now ≤ h.now
  pub quiet : (q : Provider) → same p q ≡ false → sent_to q h.sent ≡ sent_to q g.sent
  pub healthy : (q : Provider) → same p q ≡ false → h.breaker q ≡ g.breaker q

pub Touches-trans : {p : Provider} {g h k : Gateway} → Touches p g h → Touches p h k → Touches p g k
Touches-trans a b = record {
  on = omega (arith, a.on, b.on);
  quiet = λ q d. b.quiet q d ∙ a.quiet q d;
  healthy = λ q d. b.healthy q d ∙ a.healthy q d;
}

other_provider :
    (g : Gateway) (p q : Provider)
    → is_available g.breaker g.now p ≡ true
    → g.now < (g.breaker q).cooldown_until
    → same p q ≡ false
unfolding is_available
other_provider g p q a l = elim (Bool-cases (same p q)) [
  | inr e ↦ e
  | inl e ↦
      let a' = subst (λ x. not (ltb g.now (g.breaker x).cooldown_until) ≡ true) (same-eq p q e) a in
      absurd (ground arith)
]

-- A step for a provider that was available spares all that were not.
pub Touches-Follows :
    {p : Provider} {g h : Gateway}
    → is_available g.breaker g.now p ≡ true
    → Touches p g h
    → Follows g h
Touches-Follows {p} {g} {h} a t = record {
  later = t.on;
  spared =
      λ q l. let d = other_provider g p q a (omega (arith, t.on)) in (t.quiet q d, t.healthy q d);
}

pub handle_provider_exc-Touches :
    (e : Exc) (p : Provider) (g : Gateway) → Touches p g (handle_provider_exc e p g)
unfolding handle_provider_exc
handle_provider_exc-Touches rate_limit_error p g = record {
  on = omega arith;
  quiet = λ q d. refl;
  healthy = λ q d. ground arith;
}
handle_provider_exc-Touches e p g = record {
  on = omega arith;
  quiet = λ q d. refl;
  healthy = λ q d. ground arith;
}

pub target-sent :
    (p : Provider) (c : Client) (l : List Provider) (q : Provider)
    → same p q ≡ false
    → sent_to q (target p c l) ≡ sent_to q l
target-sent p (unimplemented r) l q d = refl
target-sent p (api r m) l q d = ground arith
target-sent p (inference m) l q d = ground arith

module _ (w : World) where
  pub request-Touches : (p : Provider) (c : Client) (g : Gateway) → Touches p g (request w p c g).1
  unfolding request
  request-Touches p c g = record {
    on = omega arith;
    quiet = λ q d. target-sent p c g.sent q d;
    healthy = λ q d. refl;
  }

  pub sent-request :
      (p : Provider) (c : Client) (g : Gateway)
      → length (request w p c g).1.sent ≤ length g.sent + 1
  unfolding request
  sent-request p (api r m) g = omega arith
  sent-request p (inference m) g = omega arith
  sent-request p (unimplemented r) g = omega arith

  pub logged-request :
      (p : Provider) (c : Client) (g : Gateway) → (request w p c g).1.logged ≡ g.logged
  unfolding request
  logged-request p c g = refl

pub sent-handle_provider_exc :
    (e : Exc) (p : Provider) (g : Gateway) → (handle_provider_exc e p g).sent ≡ g.sent
unfolding handle_provider_exc
sent-handle_provider_exc rate_limit_error p g = refl
sent-handle_provider_exc e p g = refl

pub logged-handle_provider_exc :
    (e : Exc) (p : Provider) (g : Gateway) → (handle_provider_exc e p g).logged ≡ g.logged
unfolding handle_provider_exc
logged-handle_provider_exc rate_limit_error p g = refl
logged-handle_provider_exc e p g = refl
