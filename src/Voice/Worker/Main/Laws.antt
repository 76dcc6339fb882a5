-- ===== src/Voice/Worker/Main/Laws.antt =====
-- What a start of the worker leaves.
use hire_os_be.Prelude.{sym}
use hire_os_be.Prelude.{ap, inl, inr, none, refl, some, String, true, ℕ, ◌∙◌, ◌≡◌}
use hire_os_be.Prelude.{Exc, member, ok, raise, Result, Result-cases}
use hire_os_be.Prelude.Dict
use hire_os_be.Prelude.Dict.{Dict}
use hire_os_be.Gateway.Policy.{Policies, UseCasePolicy, voice_llm_use_cases}
use hire_os_be.Gateway.Routing.{load_routing_config, Source}
use hire_os_be.Voice.Delivery.{File, flush_pending, Reply}
use hire_os_be.Voice.Settings.{VoiceAgentSettings}
use hire_os_be.Voice.Worker.Reload.{Process, reload_routing_config_if_changed, st_mtime}
use hire_os_be.Voice.Worker.Reload.Laws.{IsServed, reload-raises, reload-serves}
use hire_os_be.Voice.Worker.Main.{inference_of, main, Supervisor, then_flush}

module _ {F : Type 0} (settings : VoiceAgentSettings F) (t : ℕ) (source : Source)
    (rationale : String) (sorted : Dict File → Dict File) (platform : String → String → Reply)
    (s : Supervisor) where
  ready :
      (r : Process × Result (Unit {0}))
      → r.1 ≡ ok tt
      → then_flush sorted platform s r ≡ (
        (flush_pending sorted platform s.outbox).0,
        record { process = r.0; outbox = (flush_pending sorted platform s.outbox).1 },
      )
  ready (p, ok u) h = refl
  ready (p, raise e) h = cc

  -- A worker whose routing file does not load raises the error of the file at its start, and it has
  -- neither posted a transcript nor changed the outbox.
  pub main-raises :
      (e : Exc)
      → s.process.mtime ≡ none
      → load_routing_config source ≡ raise e
      → let (result, after) = main (ok settings) (st_mtime t) source rationale sorted platform s in
        (result ≡ raise e) × (after.outbox ≡ s.outbox)
  unfolding main
  main-raises e fresh h =
      rw
        (reload-raises t source settings.llm_provider_priority (inference_of rationale settings)
          s.process e (rw fresh refl) h)
        (refl, refl)

  -- A worker that starts from a routing file has loaded it: its time is recorded, every voice use case
  -- is served by the file's chain for it in the order of the provider priority (named providers first, by
  -- their last place in it) or, in the LiveKit inference mode, by the settings' models, and the outbox is
  -- what one flush that raised nothing left.
  pub main-serves :
      (u : String)
      → s.process.mtime ≡ none
      → (main (ok settings) (st_mtime t) source rationale sorted platform s).0 ≡ ok tt
      → member u voice_llm_use_cases ≡ true
      → let after = (main (ok settings) (st_mtime t) source rationale sorted platform s).1 in
        (loaded : Policies) × (from : UseCasePolicy) × (now : UseCasePolicy) × (load_routing_config
            source
          ≡ ok loaded)
        × (after.process.mtime ≡ some t)
        × ((flush_pending sorted platform s.outbox).0 ≡ ok tt)
        × (after.outbox ≡ (flush_pending sorted platform s.outbox).1)
        × (Dict.get u loaded ≡ some from)
        × (Dict.get u after.process.policies ≡ some now)
        × IsServed settings.llm_provider_priority (inference_of rationale settings) from now
  unfolding main
  main-serves u fresh started m = elim (Result-cases (load_routing_config source)) [
    | inl (loaded, h) ↦
        let order = settings.llm_provider_priority in
        let mode = inference_of rationale settings in
        let (same, timed, from, now, at, found, served) =
          reload-serves t source order mode s.process loaded u (rw fresh refl) h m in
        let left =
          ready (reload_routing_config_if_changed (st_mtime t) source order mode s.process) same in
        (
          loaded,
          from,
          now,
          h,
          ap (λ r. r.1.process.mtime) left ∙ timed,
          sym (ap (λ r. r.0) left) ∙ started,
          ap (λ r. r.1.outbox) left,
          at,
          ap (λ r. Dict.get u r.1.process.policies) left ∙ found,
          served,
        )
    | inr (e, h) ↦ let (failed, kept) = main-raises e fresh h in cc
  ]
