-- ===== src/Voice/Handlers/Laws.antt =====
-- Nudges are bounded between two answers, and controls only repeat, clarify, pause and resume.
use hire_os_be.Prelude.{
  ◌&&◌, ◌+◌, ◌++◌, ◌-◌, ◌==◌, [], ap, arith, Bool, Bool-cases, eq_iff, false, if◌then◌else◌, inl,
  inr, leb, List, none, not, refl, some, String, suc, sym, true, zero, ℕ, ◌∙◌, ◌∷◌, ◌≡◌, ◌≤◌, ◌⊎◌,
}
use mathlib.Core.List.{append_assoc}
use hire_os_be.Prelude.{leb→le, ok, Result}
use hire_os_be.Voice.Handlers.{
  act, Call, controls_topic, generate_reply, interrupt, max_consecutive_nudges, on_data_received,
  on_user_state_changed, on_user_states, Payload,
}

-- No state in the list is "speaking".
abbrev pub silent : List String → Bool
silent [] = true
silent (s ∷ l) = not (s == "speaking") && silent l

abbrev pub aways : List String → ℕ
aways [] = 0
aways (s ∷ l) = if s == "away" then suc (aways l) else aways l

abbrev pub replicate : ℕ → Call → List Call
replicate zero c = []
replicate (suc n) c = c ∷ replicate n c

-- The nudges that are left after `n` of them, as far as they are asked for.
abbrev pub due : ℕ → ℕ → ℕ
due asked n = if leb asked (max_consecutive_nudges - n) then asked else max_consecutive_nudges - n

due_full :
    (nudge : String) (n asked : ℕ)
    → 2 ≤ n
    → ◌≡◌ {A = ℕ × List Call}
        (n + due asked n, replicate (due asked n) (generate_reply nudge))
        (n + due (suc asked) n, replicate (due (suc asked) n) (generate_reply nudge))
due_full nudge n asked h = ap (λ d. (n + d, replicate d (generate_reply nudge))) (ground arith)

due_left :
    (nudge : String) (n asked : ℕ)
    → leb 2 n ≡ false
    → ◌≡◌ {A = ℕ × List Call}
        (
          suc n + due asked (suc n),
          generate_reply nudge ∷ replicate (due asked (suc n)) (generate_reply nudge),
        )
        (n + due (suc asked) n, replicate (due (suc asked) n) (generate_reply nudge))
due_left nudge n asked h =
    let same : due (suc asked) n ≡ suc (due asked (suc n)) = ground arith in
    rw same (
      ap (λ m. (m, generate_reply nudge ∷ replicate (due asked (suc n)) (generate_reply nudge)))
        (omega arith))

-- While the human does not speak, the session makes one nudge for each "away" until two were made
-- since the human last spoke, and no other call; the count is the number of nudges made.
pub on_user_states-silent :
    (nudge : String) (states : List String) (n : ℕ)
    → n ≤ 2
    → silent states ≡ true
    → on_user_states nudge states n
      ≡ (n + due (aways states) n, replicate (due (aways states) n) (generate_reply nudge))
unfolding on_user_states on_user_state_changed
on_user_states-silent nudge [] n h q = ground arith
on_user_states-silent nudge (s ∷ l) n h q = elim (Bool-cases (s == "away")) [
  | inr awake ↦ elim (Bool-cases (s == "speaking")) [
    | inl speaks ↦ absurd (ground arith)
    | inr listens ↦ rw (awake, listens) (on_user_states-silent nudge l n h (ground arith))
  ]
  | inl away ↦ elim (Bool-cases (leb 2 n)) [
    | inl full ↦
        rw (away, full)
          (on_user_states-silent nudge l n h (ground arith)
            ∙ due_full nudge n (aways l) (leb→le 2 n full))
    | inr left ↦
        rw (away, left, on_user_states-silent nudge l (suc n) (ground arith) (ground arith))
          (due_left nudge n (aways l) left)
  ]
]

on_user_states-append :
    (nudge : String) (before after : List String) (n : ℕ)
    → let first = on_user_states nudge before n in
      let rest = on_user_states nudge after first.0 in
      on_user_states nudge (before ++ after) n ≡ (rest.0, first.1 ++ rest.1)
unfolding on_user_states
on_user_states-append nudge [] after n = refl
on_user_states-append nudge (s ∷ l) after n =
    let first = on_user_state_changed nudge s n in
    rw (on_user_states-append nudge l after first.0, append_assoc first.1) refl

-- An answer resets the count: what the session does after it is what it does from the start.
pub on_user_states-speaking :
    (nudge : String) (before after : List String)
    → (on_user_states nudge (before ++ "speaking" ∷ after) 0).1
      ≡ (on_user_states nudge before 0).1 ++ (on_user_states nudge after 0).1
unfolding on_user_states on_user_state_changed
on_user_states-speaking nudge before after =
    rw (on_user_states-append nudge before ("speaking" ∷ after) 0) refl

no_calls : (c : Call) (more : List Call) → ◌≡◌ {A = Result (List Call)} (ok []) (ok (c ∷ more)) → ⊥
no_calls c more h = cc

head-eq :
    (c d : Call) (l m : List Call) → ◌≡◌ {A = Result (List Call)} (ok (c ∷ l)) (ok (d ∷ m)) → c ≡ d
head-eq c d l m h = cc

acts :
    (payload : Payload) (c : Call) (more : List Call)
    → act payload ≡ ok (c ∷ more)
    → (a : String) × (payload ≡ Payload.action (some a))
      × ((a ≡ "repeat") ⊎ (a ≡ "clarify") ⊎ ((a ≡ "pause") × (c ≡ interrupt)) ⊎ (a ≡ "resume"))
unfolding act
acts Payload.malformed c more h = absurd (no_calls c more h)
acts Payload.no_mapping c more h = cc
acts (Payload.action none) c more h = absurd (no_calls c more h)
acts (Payload.action (some a)) c more h = (
  a,
  refl,
  elim (Bool-cases (a == "repeat")) [
    | inl e ↦ inl ((eq_iff a "repeat").0 e)
    | inr e1 ↦ elim (Bool-cases (a == "clarify")) [
      | inl e ↦ inr (inl ((eq_iff a "clarify").0 e))
      | inr e2 ↦ elim (Bool-cases (a == "pause")) [
        | inl e ↦ inr (
            inr (
              inl ((eq_iff a "pause").0 e, sym (head-eq interrupt c _ more (rw (e1, e2, e) at h)))))
        | inr e3 ↦ elim (Bool-cases (a == "resume")) [
          | inl e ↦ inr (inr (inr ((eq_iff a "resume").0 e)))
          | inr e4 ↦ absurd (no_calls c more (rw (e1, e2, e3, e4) at h))
        ]
      ]
    ]
  ],
)

-- A packet makes the session act only if it is on the controls' topic and names one of the four
-- actions; only "pause" interrupts the agent.
pub on_data_received-acts :
    (topic : String) (payload : Payload) (c : Call) (more : List Call)
    → on_data_received topic payload ≡ ok (c ∷ more)
    → (topic ≡ controls_topic)
      × (a : String) × (payload ≡ Payload.action (some a))
      × ((a ≡ "repeat") ⊎ (a ≡ "clarify") ⊎ ((a ≡ "pause") × (c ≡ interrupt)) ⊎ (a ≡ "resume"))
unfolding on_data_received act
on_data_received-acts topic payload c more h = elim (Bool-cases (topic == controls_topic)) [
  | inr off ↦ absurd (no_calls c more (rw off at h))
  | inl on ↦
      let (a, is, which) = acts payload c more (rw on at h) in
      ((eq_iff topic controls_topic).0 on, a, is, which)
]
