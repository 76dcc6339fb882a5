-- ===== src/Gateway/Run/Served.antt =====
-- Which tier served a plain call, and what is recorded of it.
use hire_os_be.Prelude.{
  ◌+◌, ◌-◌, [], All, ap, arith, Bool-cases, false, get_elem?, inl, inr, List, ltb, none, Option,
  refl, some, String, subst, suc, ℕ, ◌∙◌, ◌∷◌, ◌≡◌,
}
use hire_os_be.Prelude.{Exc, ok, raise, Result-cases, runtime_error, str_len}
use hire_os_be.Gateway.Provider.{same, same_refl}
use hire_os_be.Gateway.Breaker.{fresh, is_available, record_success}
use hire_os_be.Gateway.Policy.{get_policy, Policies, ProviderChoice, UseCasePolicy}
use hire_os_be.Gateway.Client.{Client, complete, get_provider_client, World}
use hire_os_be.Gateway.Metrics.{is_dev_metrics_enabled, metric, Prompts}
use hire_os_be.Gateway.State.{Gateway, handle_provider_exc, log}
use hire_os_be.Gateway.Run.{attempt, run, run_from, succeed}
use native.Mathlib.Nat.{add-zero}
use hire_os_be.Gateway.Follows.{logged-handle_provider_exc}
use hire_os_be.Gateway.Run.Laws.{attempt-eq-ok, logged-attempt}

abbrev pub IsCooling : Gateway → ProviderChoice → Type 0
IsCooling g c = is_available g.breaker g.now c.provider ≡ false

shift_place : (a b : ℕ) → suc a + b ≡ a + suc b
shift_place a b = omega arith

module _ (w : World) where
  -- What a successful call from tier `tier` on tells: the tier that served it, and its record.
  pub record Served (p : Prompts) (chain : List ProviderChoice) (tier : ℕ) (g h : Gateway)
      (text : String) : Type 0 where
    pub place : ℕ
    pub choice : ProviderChoice
    pub at : get_elem? chain place ≡ some choice
    pub client : Client
    pub constructed : get_provider_client w choice.provider choice.model ≡ ok client
    pub turn : ℕ
    pub answered : complete w client turn ≡ ok text
    pub cleared : h.breaker choice.provider ≡ fresh
    pub latency : ℕ
    pub recorded :
        h.logged
        ≡ metric
            (is_dev_metrics_enabled w.env)
            p
            choice.provider
            choice.model
            text
            latency
            none
            (ltb 0 (tier + place))
            false
            none
            (str_len text)
          ∷ g.logged

  run_from-Served :
      (p : Prompts) (chain : List ProviderChoice) (tier : ℕ) (last : Option Exc) (g : Gateway)
      (text : String)
      → (run_from w p chain tier last g).0 ≡ ok text
      → Served p chain tier g (run_from w p chain tier last g).1 text
  unfolding run_from succeed log record_success
  run_from-Served p [] tier none g text h = cc
  run_from-Served p [] tier (some e) g text h = cc
  run_from-Served p (c ∷ chain) tier last g text h =
      elim (Bool-cases (is_available g.breaker g.now c.provider)) [
        | inr skip ↦
            let s = run_from-Served p chain (suc tier) last g text (rw (skip, run_from) at h) in
            rw (skip, run_from) (shift s refl)
        | inl free ↦ elim (Result-cases (attempt w c g).0) [
          | inl (t, e) ↦
              let same : t ≡ text = ground (arith, rw (free, e, run_from) at h) in
              let (client, built, turn, said) = attempt-eq-ok w c g t e in
              rw (free, e, run_from)
                (record {
                  place = 0;
                  choice = c;
                  at = refl;
                  client = client;
                  constructed = built;
                  turn = turn;
                  answered = said ∙ ap ok same;
                  cleared = ground (arith, same_refl c.provider);
                  latency = (attempt w c g).1.now - g.now;
                  recorded = rw same (rw logged-attempt (rw add-zero refl));
                })
          | inr (x, e) ↦
              let s =
                run_from-Served p chain (suc tier) (some x)
                  (handle_provider_exc x c.provider (attempt w c g).1) text
                  (rw (free, e, run_from) at h) in
              rw (free, e, run_from)
                (shift s (
                  logged-handle_provider_exc x c.provider (attempt w c g).1 ∙ logged-attempt w c g))
        ]
      ]
    where
      shift :
          {g' k : Gateway}
          → Served p chain (suc tier) g' k text
          → g'.logged ≡ g.logged
          → Served p (c ∷ chain) tier g k text
      shift {g'} {k} s same = record {
        place = suc s.place;
        choice = s.choice;
        at = s.at;
        client = s.client;
        constructed = s.constructed;
        turn = s.turn;
        answered = s.answered;
        cleared = s.cleared;
        latency = s.latency;
        recorded =
            subst
              (λ n.
                k.logged
                ≡ metric (is_dev_metrics_enabled w.env) p s.choice.provider s.choice.model text
                    s.latency none (ltb 0 n) false none (str_len text)
                  ∷ g'.logged)
              (shift_place tier s.place) s.recorded
            ∙ ap
                (λ l.
                  metric (is_dev_metrics_enabled w.env) p s.choice.provider s.choice.model text
                    s.latency none (ltb 0 (tier + suc s.place)) false none (str_len text)
                  ∷ l)
                same;
      }

  run_from-raise-logged :
      (p : Prompts) (chain : List ProviderChoice) (tier : ℕ) (last : Option Exc) (g : Gateway)
      (x : Exc)
      → (run_from w p chain tier last g).0 ≡ raise x
      → (run_from w p chain tier last g).1.logged ≡ g.logged
  unfolding run_from
  run_from-raise-logged p [] tier none g x h = refl
  run_from-raise-logged p [] tier (some e) g x h = refl
  run_from-raise-logged p (c ∷ chain) tier last g x h =
      elim (Bool-cases (is_available g.breaker g.now c.provider)) [
        | inr skip ↦
            rw (skip, run_from)
              (run_from-raise-logged p chain (suc tier) last g x (rw (skip, run_from) at h))
        | inl free ↦ elim (Result-cases (attempt w c g).0) [
          | inl (t, e) ↦ absurd (ground (arith, rw (free, e, run_from) at h))
          | inr (y, e) ↦
              rw (free, e, run_from)
                (run_from-raise-logged p chain (suc tier) (some y)
                    (handle_provider_exc y c.provider (attempt w c g).1) x
                    (rw (free, e, run_from) at h)
                  ∙ logged-handle_provider_exc y c.provider (attempt w c g).1
                  ∙ logged-attempt w c g)
        ]
      ]

  run_from-IsCooling :
      (p : Prompts) (chain : List ProviderChoice) (tier : ℕ) (last : Option Exc) (g : Gateway)
      → All (IsCooling g) chain
      → run_from w p chain tier last g ≡ run_from w p [] tier last g
  unfolding run_from
  run_from-IsCooling p [] tier last g a = refl
  run_from-IsCooling p (c ∷ chain) tier none g a =
      rw (a.0, run_from) (run_from-IsCooling p chain (suc tier) none g a.1)
  run_from-IsCooling p (c ∷ chain) tier (some e) g a =
      rw (a.0, run_from) (run_from-IsCooling p chain (suc tier) (some e) g a.1)

  -- A call that returns was served by a tier of the use case's chain: the text is a completion of
  -- that tier's client, the provider's health record is clear again, and one metrics record is
  -- added, which names the tier's provider and model and is marked as a fallback unless the tier is
  -- the first.
  pub run-Served :
      (policies : Policies) (p : Prompts) (g : Gateway) (text : String)
      → (run w policies p g).0 ≡ ok text
      → (policy : UseCasePolicy) × (get_policy p.use_case policies ≡ ok policy)
        × Served p policy.chain 0 g (run w policies p g).1 text
  unfolding run
  run-Served policies p g text h = elim (Result-cases (get_policy p.use_case policies)) [
    | inl (policy, e) ↦
        (policy, e, rw (e, run) (run_from-Served p policy.chain 0 none g text (rw (e, run) at h)))
    | inr (x, e) ↦ absurd (ground (arith, rw (e, run) at h))
  ]

  -- A call that raises adds no metrics record.
  pub run-raise-logged :
      (policies : Policies) (p : Prompts) (g : Gateway) (x : Exc)
      → (run w policies p g).0 ≡ raise x
      → (run w policies p g).1.logged ≡ g.logged
  unfolding run
  run-raise-logged policies p g x h = elim (Result-cases (get_policy p.use_case policies)) [
    | inl (policy, e) ↦
        rw (e, run) (run_from-raise-logged p policy.chain 0 none g x (rw (e, run) at h))
    | inr (y, e) ↦ rw (e, run) refl
  ]

  -- With every tier of the chain in cooldown the call raises RuntimeError at once: no request is
  -- sent and nothing changes.
  pub run-IsCooling :
      (policies : Policies) (p : Prompts) (g : Gateway) (policy : UseCasePolicy)
      → get_policy p.use_case policies ≡ ok policy
      → All (IsCooling g) policy.chain
      → run w policies p g ≡ (raise (runtime_error "no providers configured or all in cooldown"), g)
  unfolding run
  run-IsCooling policies p g policy e a =
      rw (e, run) (run_from-IsCooling p policy.chain 0 none g a ∙ unfold run_from in refl)
