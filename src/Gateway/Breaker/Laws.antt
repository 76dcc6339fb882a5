-- ===== src/Gateway/Breaker/Laws.antt =====
-- What the circuit breaker promises, over any history of outcomes.
use hire_os_be.Prelude.{
  ◌+◌, ◌<◌, [], All, arith, Bool-cases, false, inl, inr, leb, List, refl, suc, true, ℕ, ◌↔◌, ◌∷◌,
  ◌≡◌, ◌≤◌,
}
use hire_os_be.Gateway.Provider.{Provider, same, same_refl}
use hire_os_be.Gateway.Breaker.{
  Breaker, cooldown_remaining, init, is_available, record_failure, record_rate_limit,
  record_success,
}

-- What one call of a provider reports, with the time of the report.
pub data Outcome : Type 0 where
  success rate_limit failure : ℕ → Outcome

abbrev pub time : Outcome → ℕ
time (success t) = t
time (rate_limit t) = t
time (failure t) = t

unfoldable pub report : Provider → Breaker → Outcome → Breaker
unfolding record_success record_rate_limit record_failure
report p b (success t) = record_success b p
report p b (rate_limit t) = record_rate_limit b t p
report p b (failure t) = record_failure b t p

-- The newest outcome stands first.
unfoldable pub reports : Provider → Breaker → List Outcome → Breaker
unfolding report
reports p b [] = b
reports p b (o ∷ older) = report p (reports p b older) o

-- The length of the run of failures that ends a history.
abbrev pub streak : List Outcome → ℕ
streak (failure t ∷ older) = suc (streak older)
streak _ = 0

-- The reasons for which a provider is skipped at `now`.
pub data Cooling (now : ℕ) : List Outcome → Type 0 where
  limited : {older : List Outcome} (t : ℕ) → now < t + 300_000 → Cooling now (rate_limit t ∷ older)
  failing :
      {older : List Outcome} (t : ℕ)
      → 2 ≤ streak older
      → now < t + 60_000
      → Cooling now (failure t ∷ older)
  still :
      {older : List Outcome} (t : ℕ)
      → streak older < 2
      → Cooling now older
      → Cooling now (failure t ∷ older)

module _ (p : Provider) where
  pub failure_count-reports : (h : List Outcome) → (reports p init h p).failure_count ≡ streak h
  unfolding reports
  failure_count-reports [] = refl
  failure_count-reports (success t ∷ h) = ground (arith, same_refl p)
  failure_count-reports (rate_limit t ∷ h) = ground (arith, same_refl p)
  failure_count-reports (failure t ∷ h) = ground (arith, same_refl p, failure_count-reports h)

  cooling→until :
      (h : List Outcome) {now : ℕ} → Cooling now h → now < (reports p init h p).cooldown_until
  unfolding reports
  cooling→until [] c = elim c [ ]
  cooling→until (success t ∷ h) c = elim c [ ]
  cooling→until (rate_limit t ∷ h) (Cooling.limited _ l) = ground (arith, same_refl p)
  cooling→until (failure t ∷ h) (Cooling.failing _ s l) =
      ground (arith, same_refl p, failure_count-reports h)
  cooling→until (failure t ∷ h) (Cooling.still _ s c) =
      ground (arith, same_refl p, failure_count-reports h, cooling→until h c)

  until→cooling :
      (h : List Outcome) (now : ℕ) → now < (reports p init h p).cooldown_until → Cooling now h
  unfolding reports
  until→cooling [] now l = absurd (omega arith)
  until→cooling (success t ∷ h) now l = absurd (ground (arith, same_refl p))
  until→cooling (rate_limit t ∷ h) now l = Cooling.limited t (ground (arith, same_refl p))
  until→cooling (failure t ∷ h) now l = elim (Bool-cases (leb 2 (streak h))) [
    | inl many ↦
        Cooling.failing t (ground arith) (ground (arith, same_refl p, failure_count-reports h))
    | inr few ↦
        Cooling.still t (ground arith)
          (until→cooling h now (ground (arith, same_refl p, failure_count-reports h)))
  ]

  -- After any history of outcomes, the breaker skips a provider exactly while its history gives a
  -- reason: a rate limit less than 300 s ago, or a third consecutive failure less than 60 s ago.
  pub skipped_iff-Cooling :
      (h : List Outcome) (now : ℕ) → (is_available (reports p init h) now p ≡ false) ↔ Cooling now h
  unfolding is_available
  skipped_iff-Cooling h now =
      (λ e. until→cooling h now (ground arith), λ c. ground (arith, cooling→until h c))

  until-le :
      (h : List Outcome) (latest : ℕ)
      → All (λ o. time o ≤ latest) h
      → (reports p init h p).cooldown_until ≤ latest + 300_000
  unfolding reports
  until-le [] latest a = omega arith
  until-le (success t ∷ h) latest a = ground (arith, same_refl p)
  until-le (rate_limit t ∷ h) latest a = ground (arith, same_refl p)
  until-le (failure t ∷ h) latest a = ground (arith, same_refl p, until-le h latest a.1)

  -- A provider is tried again at the latest 300 s after its last outcome, whatever its history.
  pub is_available-recovers :
      (h : List Outcome) (latest now : ℕ)
      → All (λ o. time o ≤ latest) h
      → latest + 300_000 ≤ now
      → is_available (reports p init h) now p ≡ true
  unfolding is_available
  is_available-recovers h latest now a l = ground (arith, until-le h latest a)

  -- An outcome of one provider changes nothing of another.
  pub report_other :
      (b : Breaker) (o : Outcome) (q : Provider) → same p q ≡ false → report p b o q ≡ b q
  unfolding report
  report_other b (success t) q d = ground arith
  report_other b (rate_limit t) q d = ground arith
  report_other b (failure t) q d = ground arith

-- `cooldown_remaining` is zero exactly when the provider is available, and else is the time after
-- which it becomes available.
pub remaining_iff :
    (b : Breaker) (now : ℕ) (p : Provider)
    → is_available b (now + cooldown_remaining b now p) p ≡ true
      × ((cooldown_remaining b now p ≡ 0) ↔ (is_available b now p ≡ true))
unfolding is_available cooldown_remaining
remaining_iff b now p = (ground arith, ((λ e. ground arith), (λ e. ground arith)))
