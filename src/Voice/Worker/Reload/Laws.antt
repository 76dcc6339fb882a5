-- ===== src/Voice/Worker/Reload/Laws.antt =====
-- What a dispatch finds after the routing file was looked at.
use hire_os_be.Prelude.{
  [], ap, arith, Bool-cases, false, inl, inr, List, none, Option, refl, some, String, true, ℕ, ◌∙◌,
  ◌∷◌, ◌≡◌,
}
use hire_os_be.Gateway.Policy.Priority.{IsReordered, reorder_chain-IsReordered}
use hire_os_be.Prelude.{Exc, key_error, member, ok, raise}
use hire_os_be.Prelude.Dict
use hire_os_be.Prelude.Dict.{Dict}
use hire_os_be.Gateway.Provider.{Provider}
use hire_os_be.Gateway.Policy.{
  apply_provider_priority, get_policy, inference_chain, Policies, reorder_chain, UseCasePolicy,
  voice_llm_use_cases,
}
use hire_os_be.Gateway.Policy.Modes.{
  apply_provider_priority-get, apply_provider_priority-ok, set_livekit_inference_mode_lem,
}
use hire_os_be.Gateway.Routing.{load_routing_config, required_use_cases, Source}
use hire_os_be.Gateway.Routing.Laws.{load_routing_config-IsUsable}
use hire_os_be.Voice.Worker.Reload.{
  apply_mode, Inference, inference_timeout, prioritized, Process, reload,
  reload_routing_config_if_changed, st_mtime, unchanged,
}

voice_is_required :
    (u : String) → member u voice_llm_use_cases ≡ true → member u required_use_cases ≡ true
voice_is_required u h = ground arith

loaded-has :
    (source : Source) (loaded : Policies) (u : String)
    → load_routing_config source ≡ ok loaded
    → member u required_use_cases ≡ true
    → Dict.has u loaded ≡ true
loaded-has source loaded u h m =
    let (p, e, usable) = load_routing_config-IsUsable source loaded u h m in
    Dict.get-has u loaded p e

-- The policy that a voice use case has in the mode, from the one that the file gives it: its chain in
-- the order of the priority, or the chain of the inference models.
abbrev pub IsServed : List Provider → Option Inference → UseCasePolicy → UseCasePolicy → Type 0
IsServed order none from p = IsReordered order from.chain p.chain
IsServed order (some m) from p =
    p.chain ≡ inference_chain inference_timeout (m.primary ∷ m.fallbacks)

apply_mode-IsServed :
    (order : List Provider) (mode : Option Inference) (u : String) (from p : UseCasePolicy)
    (d : Policies)
    → member u voice_llm_use_cases ≡ true
    → Dict.get u d ≡ some p
    → IsReordered order from.chain p.chain
    → (q : UseCasePolicy) × (Dict.get u (apply_mode mode d) ≡ some q) × IsServed order mode from q
unfolding apply_mode inference_chain
apply_mode-IsServed order none u from p d m e perm = (p, e, perm)
apply_mode-IsServed order (some i) u from p d m e perm = (
  record {
    chain = inference_chain inference_timeout (i.primary ∷ i.fallbacks);
    rationale = i.rationale;
  },
  set_livekit_inference_mode_lem i.primary i.fallbacks inference_timeout i.rationale d u
      ∙ rw (m, Dict.get-has u d p e) refl,
  refl,
)

applied :
    (order : List Provider) (source : Source) (loaded : Policies)
    → load_routing_config source ≡ ok loaded
    → (apply_provider_priority voice_llm_use_cases order loaded).1 ≡ ok tt
applied order source loaded h = apply_provider_priority-ok voice_llm_use_cases order loaded (
  loaded-has source loaded "voice_interview_turn" h refl,
  (
    loaded-has source loaded "voice_interview_summary" h refl,
    (
      loaded-has source loaded "role_discovery_turn" h refl,
      (loaded-has source loaded "role_discovery_extraction" h refl, tt),
    ),
  ),
)

reload-ok :
    (t : ℕ) (source : Source) (order : List Provider) (mode : Option Inference) (p : Process)
    (loaded : Policies)
    → load_routing_config source ≡ ok loaded
    → reload t source order mode p ≡ (
      record {
        policies = apply_mode mode (apply_provider_priority voice_llm_use_cases order loaded).0;
        mtime = some t;
      },
      ok tt,
    )
unfolding reload prioritized
reload-ok t source order mode p loaded h =
    rw (reload, h)
      (ap
        (λ r.
          prioritized t mode p ((apply_provider_priority voice_llm_use_cases order loaded).0, r))
        (applied order source loaded h))

-- A dispatch that finds a changed file which loads takes it: the file's time is recorded, no error
-- is raised, and every voice use case is served by the file's chain for it in the order of the
-- provider priority (named providers first, by their last place in it) or, in the LiveKit inference mode, by the settings' models, the primary first.
pub reload-serves :
    (t : ℕ) (source : Source) (order : List Provider) (mode : Option Inference) (p : Process)
    (loaded : Policies) (u : String)
    → unchanged t p.mtime ≡ false
    → load_routing_config source ≡ ok loaded
    → member u voice_llm_use_cases ≡ true
    → let (after, result) = reload_routing_config_if_changed (st_mtime t) source order mode p in
      (result ≡ ok tt)
      × (after.mtime ≡ some t)
      × (from : UseCasePolicy) × (now : UseCasePolicy) × (Dict.get u loaded ≡ some from)
      × (Dict.get u after.policies ≡ some now)
      × IsServed order mode from now
unfolding reload_routing_config_if_changed
reload-serves t source order mode p loaded u changed h m =
    let (from, e, usable) =
      load_routing_config-IsUsable source loaded u h (voice_is_required u m) in
    let reordered =
      apply_provider_priority-get voice_llm_use_cases order loaded u from
        (refl, (refl, (refl, (refl, tt)))) (applied order source loaded h) m e in
    let (now, at, served) =
      apply_mode-IsServed order mode u from (record from { chain = reorder_chain from.chain order })
        _ m reordered (reorder_chain-IsReordered from.chain order) in
    rw (changed, reload-ok t source order mode p loaded h) (refl, refl, from, now, e, at, served)

pub reload-raises :
    (t : ℕ) (source : Source) (order : List Provider) (mode : Option Inference) (p : Process)
    (e : Exc)
    → unchanged t p.mtime ≡ false
    → load_routing_config source ≡ raise e
    → reload_routing_config_if_changed (st_mtime t) source order mode p
      ≡ (record p { policies = [] }, raise e)
unfolding reload_routing_config_if_changed reload
reload-raises t source order mode p e changed h = rw (changed, reload, h) refl

reload-unchanged :
    (t : ℕ) (source : Source) (order : List Provider) (mode : Option Inference) (p : Process)
    → unchanged t p.mtime ≡ true
    → reload_routing_config_if_changed (st_mtime t) source order mode p
      ≡ (record p { policies = apply_mode mode p.policies }, ok tt)
unfolding reload_routing_config_if_changed
reload-unchanged t source order mode p same = rw same refl

get_policy-apply_mode-empty :
    (mode : Option Inference) (u : String) → get_policy u (apply_mode mode []) ≡ raise (key_error u)
unfolding get_policy apply_mode Dict.has Dict.get
get_policy-apply_mode-empty none u = refl
get_policy-apply_mode-empty (some i) u =
    let gone =
      set_livekit_inference_mode_lem i.primary i.fallbacks inference_timeout i.rationale [] u in
    elim (Bool-cases (member u voice_llm_use_cases)) [
      | inl m ↦ rw (get_policy, rw m at gone) refl
      | inr m ↦ rw (get_policy, rw m at gone) refl
    ]

-- A dispatch that finds a changed file which does not load raises and forgets every policy, but
-- keeps the time of the file that was loaded before: if that time is found again, then the next
-- dispatch raises nothing and loads nothing, and no use case has a policy, in either mode.
pub reload-forgets :
    (t u : ℕ) (source later : Source) (order : List Provider) (mode : Option Inference)
    (p : Process) (e : Exc) (use_case : String)
    → unchanged t p.mtime ≡ false
    → unchanged u p.mtime ≡ true
    → load_routing_config source ≡ raise e
    → let broken = reload_routing_config_if_changed (st_mtime t) source order mode p in
      let after = reload_routing_config_if_changed (st_mtime u) later order mode broken.0 in
      (broken.1 ≡ raise e)
      × (after.1 ≡ ok tt)
      × (get_policy use_case after.0.policies ≡ raise (key_error use_case))
reload-forgets t u source later order mode p e use_case changed back h =
    rw (reload-raises t source order mode p e changed h) (
      rw (reload-unchanged u later order mode (record p { policies = [] }) back)
        (refl, refl, get_policy-apply_mode-empty mode use_case))
