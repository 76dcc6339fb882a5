-- ===== src/Voice/Transcript/Laws.antt =====
-- The two extractions agree, and one-off instructions are found.
use hire_os_be.Prelude.{
  ◌&&◌, [], ap, arith, Bool-cases, false, get_elem?, inl, inr, List, map, Option, Option-cases,
  refl, some, String, suc, true, ℕ, ◌∷◌, ◌≡◌,
}
use hire_os_be.Prelude.{◌+s◌, truthy}
use hire_os_be.Voice.Transcript.{
  extract_pending_instructions, extract_structured_transcript, extract_transcript_lines, flat,
  is_system, Message, repeats, speaker_of, spoken,
}

-- The flattened structured transcript, which is evaluated and delivered, has the same lines, in the
-- same order, as the one that the turns' prompts show.
pub flat-extract_structured_transcript :
    (user_label assistant_label : String) (messages : List Message)
    → map flat (extract_structured_transcript user_label assistant_label messages)
      ≡ extract_transcript_lines user_label assistant_label messages
unfolding extract_structured_transcript extract_transcript_lines
flat-extract_structured_transcript u a [] = refl
flat-extract_structured_transcript u a (m ∷ more) = elim (Option-cases m.text_content) [
  | inl e ↦ rw e (flat-extract_structured_transcript u a more)
  | inr (text, e) ↦ elim (Bool-cases (spoken m.role && truthy text)) [
    | inl k ↦
        rw (e, k)
          (ap (λ l. (speaker_of u a m.role +s ": " +s text) ∷ l)
            (flat-extract_structured_transcript u a more))
    | inr k ↦ rw (e, k) (flat-extract_structured_transcript u a more)
  ]
]

-- A message that is an instruction for this turn: the framework's, and not the system prompt.
abbrev pub IsInstruction : Option String → Message → String → Type 0
IsInstruction system_prompt m text =
    (m.text_content ≡ some text)
    × (is_system m.role ≡ true)
    × (truthy text ≡ true)
    × (repeats text system_prompt ≡ false)

found_later :
    (sp : Option String) (m : Message) (more : List Message) (text : String)
    → (i : ℕ) × (n : Message) × (get_elem? more i ≡ some n) × IsInstruction sp n text
    → (i : ℕ) × (n : Message) × (get_elem? (m ∷ more) i ≡ some n) × IsInstruction sp n text
found_later sp m more text (i, n, at, is) = (suc i, n, at, is)

-- The instruction that is found is the text of a system message of the chat which is not empty and
-- is not the persona's own system prompt.
pub extract_pending_instructions-IsInstruction :
    (system_prompt : Option String) (messages : List Message) (text : String)
    → extract_pending_instructions messages system_prompt ≡ some text
    → (i : ℕ) × (m : Message) × (get_elem? messages i ≡ some m) × IsInstruction system_prompt m text
unfolding extract_pending_instructions
extract_pending_instructions-IsInstruction sp [] text h = cc
extract_pending_instructions-IsInstruction sp (m ∷ more) text h =
    elim (Option-cases m.text_content) [
      | inl e ↦
          found_later sp m more text
            (extract_pending_instructions-IsInstruction sp more text (rw e at h))
      | inr (t, e) ↦ elim (Bool-cases (is_system m.role && truthy t)) [
        | inr k ↦
            found_later sp m more text
              (extract_pending_instructions-IsInstruction sp more text (rw (e, k) at h))
        | inl k ↦ elim (Bool-cases (repeats t sp)) [
          | inl r ↦
              found_later sp m more text
                (extract_pending_instructions-IsInstruction sp more text (rw (e, k, r) at h))
          | inr r ↦
              let same : t ≡ text = ground (arith, rw (e, k, r) at h) in
              (
                0,
                m,
                refl,
                (rw e (ap some same), ground arith, rw (← same) (ground arith), rw (← same) r),
              )
        ]
      ]
    ]
