-- ===== src/Gateway/Policy/Modes.antt =====
-- Switching the voice use cases to LiveKit inference.
use hire_os_be.Prelude.{
  ◌&&◌, ◌==◌, [], All, ap, arith, Bool-cases, eq_iff, false, if◌then◌else◌, inl, inr, List,
  Option-cases, refl, some, String, subst, sym, true, ◌∙◌, ◌∷◌, ◌≡◌,
}
use hire_os_be.Prelude.{member, ok}
use hire_os_be.Prelude.Dict
use hire_os_be.Prelude.Dict.{Dict}
use hire_os_be.Gateway.Provider.{Provider}
use mathlib.Core.List.{Perm}
use mathlib.Core.List.Perm
use hire_os_be.Gateway.Policy.Order.{reorder_chain-perm}
use hire_os_be.Gateway.Policy.{
  apply_provider_priority, get_policy, inference_chain, overwrite, Policies, reorder_chain,
  set_livekit_inference_mode, Timeout, UseCasePolicy, voice_llm_use_cases,
}

has-overwrite :
    (policy : UseCasePolicy) (k : String) (l : List String) (d : Policies)
    → Dict.has k (overwrite policy l d) ≡ Dict.has k d
unfolding overwrite
has-overwrite policy k [] d = refl
has-overwrite policy k (u ∷ l) d = elim (Bool-cases (Dict.has u d)) [
  | inl e ↦ rw e (
      has-overwrite policy k l (Dict.put u policy d)
      ∙ ground (arith, Dict.has-put u k policy d, eq_iff u k))
  | inr e ↦ rw e (has-overwrite policy k l d)
]

get-overwrite :
    (policy : UseCasePolicy) (k : String) (l : List String) (d : Policies)
    → Dict.get k (overwrite policy l d)
      ≡ (if member k l && Dict.has k d then some policy else Dict.get k d)
unfolding overwrite
get-overwrite policy k [] d = refl
get-overwrite policy k (u ∷ l) d = elim (Bool-cases (Dict.has u d)) [
  | inl e ↦ rw e (
      get-overwrite policy k l (Dict.put u policy d)
      ∙ ground (arith, Dict.has-put u k policy d, Dict.get-put u k policy d, eq_iff u k))
  | inr e ↦ rw e (get-overwrite policy k l d ∙ ground (arith, eq_iff u k))
]

-- After the switch a voice use case that had a policy has the chain of LiveKit inference tiers,
-- the primary model first; every other use case, known or not, is as before.
pub set_livekit_inference_mode_lem :
    (primary : String) (fallbacks : List String) (timeout : Timeout) (rationale : String)
    (d : Policies) (k : String)
    → Dict.get k (set_livekit_inference_mode primary fallbacks timeout rationale d) ≡ (
        if member k voice_llm_use_cases && Dict.has k d
        then some (record {
          chain =
              record {
                provider = Provider.livekit_inference;
                model = some primary;
                timeout = some timeout;
              }
              ∷ inference_chain timeout fallbacks;
          rationale = rationale;
        })
        else Dict.get k d)
unfolding set_livekit_inference_mode
set_livekit_inference_mode_lem primary fallbacks timeout rationale d k =
    get-overwrite _ k voice_llm_use_cases d

-- What one step of the loop leaves under each key.
step_perm :
    (order : List Provider) (d : Policies) (u k : String) (q p : UseCasePolicy)
    → Dict.get u d ≡ some q
    → Dict.get k d ≡ some p
    → (p' : UseCasePolicy) × (Dict.get k
          (Dict.put u (record q { chain = reorder_chain q.chain order }) d)
        ≡ some p')
      × Perm p'.chain p.chain
      × (p'.rationale ≡ p.rationale)
step_perm order d u k q p e h = elim (Bool-cases (u == k)) [
  | inl s ↦
      let same_policy : q ≡ p = ground (arith, eq_iff u k) in
      (
        record q { chain = reorder_chain q.chain order },
        rw (Dict.get-put, s),
        subst (λ (r : UseCasePolicy). Perm (reorder_chain q.chain order) r.chain) same_policy
            (reorder_chain-perm q.chain order),
        ap (λ (r : UseCasePolicy). r.rationale) same_policy,
      )
  | inr s ↦ (p, rw (Dict.get-put, s) h, Perm.refl _, refl)
]

-- Whether or not it fails part of the way, setting the priority keeps every policy, with its
-- rationale and with the same tiers in some order.
pub apply_provider_priority-perm :
    (use_cases : List String) (order : List Provider) (d : Policies) (k : String)
    (p : UseCasePolicy)
    → Dict.get k d ≡ some p
    → (p' : UseCasePolicy) × (Dict.get k (apply_provider_priority use_cases order d).0 ≡ some p')
      × Perm p'.chain p.chain
      × (p'.rationale ≡ p.rationale)
unfolding apply_provider_priority
apply_provider_priority-perm [] order d k p h = (p, h, Perm.refl _, refl)
apply_provider_priority-perm (u ∷ l) order d k p h = elim (Option-cases (Dict.get u d)) [
  | inl e ↦ rw (e, apply_provider_priority, get_policy) (p, h, Perm.refl _, refl)
  | inr (q, e) ↦
      let (p1, g1, perm1, r1) = step_perm order d u k q p e h in
      let (p2, g2, perm2, r2) =
        apply_provider_priority-perm l order
          (Dict.put u (record q { chain = reorder_chain q.chain order }) d) k p1 g1 in
      rw (e, apply_provider_priority, get_policy) (p2, g2, Perm.trans perm2 perm1, r2 ∙ r1)
]

-- The call succeeds if every named use case has a policy.
pub apply_provider_priority-ok :
    (use_cases : List String) (order : List Provider) (d : Policies)
    → All (λ u. Dict.has u d ≡ true) use_cases
    → (apply_provider_priority use_cases order d).1 ≡ ok tt
unfolding apply_provider_priority
apply_provider_priority-ok [] order d h = refl
apply_provider_priority-ok (u ∷ l) order d h =
    let (q, e) = Dict.has-get u d h.0 in
    rw (e, apply_provider_priority, get_policy)
      (apply_provider_priority-ok l order _ (all_put _ l h.1))
  where
    all_put :
        (q : UseCasePolicy) (l : List String)
        → All (λ v. Dict.has v d ≡ true) l
        → All (λ v. Dict.has v (Dict.put u q d) ≡ true) l
    all_put q [] a = tt
    all_put q (v ∷ l) a = (ground (arith, Dict.has-put u v q d), all_put q l a.1)

-- A use case that is not named keeps its policy as it was.
pub apply_provider_priority_other :
    (use_cases : List String) (order : List Provider) (d : Policies) (k : String)
    → member k use_cases ≡ false
    → Dict.get k (apply_provider_priority use_cases order d).0 ≡ Dict.get k d
unfolding apply_provider_priority
apply_provider_priority_other [] order d k h = refl
apply_provider_priority_other (u ∷ l) order d k h = elim (Option-cases (Dict.get u d)) [
  | inl e ↦ rw (e, apply_provider_priority, get_policy) refl
  | inr (q, e) ↦
      let q' : UseCasePolicy = record q { chain = reorder_chain q.chain order } in
      rw (e, apply_provider_priority, get_policy)
        (apply_provider_priority_other l order (Dict.put u q' d) k (ground arith)
          ∙ ground (arith, Dict.get-put u k q' d))
]

-- No use case twice.
abbrev pub AllDistinct : List String → Type 0
AllDistinct [] = Unit
AllDistinct (u ∷ l) = (member u l ≡ false) × AllDistinct l

-- If every named use case has a policy, each one's chain is reordered once, and its rationale kept.
pub apply_provider_priority-get :
    (use_cases : List String) (order : List Provider) (d : Policies) (k : String)
    (p : UseCasePolicy)
    → AllDistinct use_cases
    → (apply_provider_priority use_cases order d).1 ≡ ok tt
    → member k use_cases ≡ true
    → Dict.get k d ≡ some p
    → Dict.get k (apply_provider_priority use_cases order d).0
      ≡ some (record p { chain = reorder_chain p.chain order })
unfolding apply_provider_priority
apply_provider_priority-get [] order d k p a done m h = cc
apply_provider_priority-get (u ∷ l) order d k p a done m h = elim (Option-cases (Dict.get u d)) [
  | inl e ↦ absurd (ground (arith, rw (e, apply_provider_priority, get_policy) at done))
  | inr (q, e) ↦
      let d' : Policies = Dict.put u (record q { chain = reorder_chain q.chain order }) d in
      rw (e, apply_provider_priority, get_policy)
        (elim (Bool-cases (u == k)) [
          | inl s ↦
              let same_key : u ≡ k = ground (arith, eq_iff u k) in
              let same_policy : q ≡ p = ground (arith, eq_iff u k) in
              apply_provider_priority_other l order d' k (ap (λ v. member v l) (sym same_key) ∙ a.0)
              ∙ rw (Dict.get-put, s)
                  (ap
                    (λ (r : UseCasePolicy). some (record r { chain = reorder_chain r.chain order }))
                    same_policy)
          | inr s ↦
              apply_provider_priority-get l order d' k p a.1
                (rw (e, apply_provider_priority, get_policy) at done) (ground arith)
                (rw (Dict.get-put, s) h)
        ])
]
