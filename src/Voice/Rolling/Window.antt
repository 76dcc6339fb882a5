-- ===== src/Voice/Rolling/Window.antt =====
-- What a turn's prompt leaves out of the conversation.
use hire_os_be.Prelude.{
  ◌++◌, ◌-◌, ◌<◌, [], ap, arith, Bool-cases, drop, false, inl, inr, is_empty, last_n, length,
  length-drop, List, ltb, String, take, take-append-drop, true, ◌||◌, ◌∙◌, ◌∷◌, ◌≡◌,
}
use hire_os_be.Prelude.{◌+s◌, if◌then◌else◌, join, refl, truthy}
use hire_os_be.Voice.Rolling.{build_user_prompt, is_locked, Reach, Rolling, schedule_consolidation}
use hire_os_be.Voice.Rolling.Laws.{
  grow-IsFaithful, IsFaithful, length-take-le, Reach-IsFaithful, take-append-drop-take,
}

-- The lines between what is summarized and the window of ten.
abbrev pub gap : Rolling → List String
gap r = drop r.summarized (take (length r.lines - 10) r.lines)

split-gap : (r : Rolling) → IsFaithful r → (r.folded ++ gap r) ++ last_n 10 r.lines ≡ r.lines
split-gap r f =
    ap (λ l. (l ++ gap r) ++ last_n 10 r.lines) f.folded
    ∙ ap (λ l. l ++ last_n 10 r.lines)
        (take-append-drop-take r.summarized (length r.lines - 10) r.lines f.within)
    ∙ take-append-drop (length r.lines - 10) r.lines

length-gap : (r : Rolling) → length (gap r) ≡ (length r.lines - 10) - r.summarized
length-gap r = omega (
  arith,
  length-drop r.summarized (take (length r.lines - 10) r.lines),
  length-take-le (length r.lines - 10) r.lines (omega arith),
)

snoc_not_empty : (l : List (List String)) (x : List String) → is_empty (l ++ x ∷ []) ≡ true → ⊥
snoc_not_empty [] x h = cc
snoc_not_empty (y ∷ l) x h = cc

unlocked_small :
    (r : Rolling)
    → (ltb (length r.lines - r.summarized - 10) 6 || is_locked r.flight) ≡ true
    → is_locked r.flight ≡ false
    → length r.lines - r.summarized - 10 < 6
unlocked_small r skip free = ground arith

schedule-covers :
    (r : Rolling)
    → IsFaithful r
    → let s = schedule_consolidation r.lines r in
      is_empty s.waiting ≡ true
      → is_locked s.flight ≡ false
      → ((s.folded ++ gap s) ++ last_n 10 s.lines ≡ s.lines) × (length (gap s) < 6)
unfolding schedule_consolidation
schedule-covers r f idle free =
    elim (Bool-cases (ltb (length r.lines - r.summarized - 10) 6 || is_locked r.flight)) [
      | inl skip ↦
          rw skip
            (split-gap r f, omega (arith, length-gap r, unlocked_small r skip (rw skip at free)))
      | inr go ↦ absurd (snoc_not_empty r.waiting r.lines (rw go at idle))
    ]

-- After a turn that leaves no consolidation waiting or running, the conversation is the lines that
-- were folded into the summary, fewer than six further lines, and the lines that the prompt built from
-- this memory and conversation shows, after the summary if there is one: fewer than six lines are
-- neither in the summary nor shown to the model.
pub turn-covers :
    {r : Rolling}
    → Reach r
    → (more : List String)
    → let s = schedule_consolidation (r.lines ++ more) (record r { lines = r.lines ++ more }) in
      is_empty s.waiting ≡ true
      → is_locked s.flight ≡ false
      → (unseen : List String) × (shown : List String) × ((s.folded ++ unseen) ++ shown ≡ s.lines)
        × (length unseen < 6)
        × (build_user_prompt s.summary s.lines ≡ (
            if truthy s.summary
            then "Summary of earlier conversation:\n"
              +s s.summary
              +s "\n\nMost recent exchange:\n"
              +s join "\n" shown
            else join "\n" shown))
unfolding build_user_prompt
turn-covers {r} reach more idle free =
    let s = schedule_consolidation (r.lines ++ more) (record r { lines = r.lines ++ more }) in
    let (all, few) =
      schedule-covers (record r { lines = r.lines ++ more })
        (grow-IsFaithful more r (Reach-IsFaithful reach)) idle free in
    (gap s, last_n 10 s.lines, all, few, refl)
