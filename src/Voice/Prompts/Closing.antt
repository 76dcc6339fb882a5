-- ===== src/Voice/Prompts/Closing.antt =====
-- How the prompts of ai-service/app/voice_agent/prompts.py begin and end.
use hire_os_be.Prelude.{◌+◌, ap, arith, none, Option, some, String, sym, ◌∙◌, ◌≡◌, ◌≤◌}
use hire_os_be.Prelude.{◌+s◌, >>=-eq-ok, ok, ok-inj, or_else, str_len}
use text.Mathlib.TextLemmas.{append_assoc, length-append, nil-append}
use hire_os_be.Prelude.Json.{Json}
use hire_os_be.Voice.Prompts.{compact_resume_context}
use hire_os_be.Voice.Prompts.Texts.{boundaries, conversation_flow}
use hire_os_be.Voice.Prompts.Laws.{compact_resume_context-le}
use hire_os_be.Voice.Prompts.Build.{
  build_interview_system_prompt, given_resume, header, prompt_of, resume_block, resume_block_end,
  resume_block_start,
}

around_le :
    (a b c t : String)
    → str_len t ≤ 4000
    → str_len (a +s b +s t +s c) ≤ 4000 + str_len (a +s b +s c)
around_le a b c t h = omega (
  arith,
  length-append a (b +s t +s c),
  length-append b (t +s c),
  length-append t c,
  length-append a (b +s c),
  length-append b c,
)

inserted : (a b c d : String) → a +s b +s c +s d ≡ a +s (b +s c) +s d
inserted a b c d = ap (λ s. a +s s) (sym (append_assoc b c d))

prompt_of-ends :
    (show : Json → String) (loads : String → Option Json) (resume : Option String)
    → (flow limits p : String) → prompt_of show loads resume flow limits ≡ ok p
    → (mid : String) × (p ≡ header +s mid +s "\n\n" +s flow +s "\n\n" +s limits)
      × (str_len mid ≤ 4428)
unfolding prompt_of
prompt_of-ends show loads none flow limits p h =
    let ending = "\n\n" +s flow +s "\n\n" +s limits in
    ("", sym (ok-inj h) ∙ ap (λ s. header +s s) (sym (nil-append ending)), omega arith)
prompt_of-ends show loads (some resume) flow limits p h =
    let ending = "\n\n" +s flow +s "\n\n" +s limits in
    let (t, made, out) = >>=-eq-ok (compact_resume_context show loads resume) _ h in
    (
      "\n" +s resume_block t,
      sym (ok-inj out) ∙ inserted header "\n" (resume_block t) ending,
      around_le "\n" resume_block_start resume_block_end t
          (compact_resume_context-le show loads resume t made),
    )

-- Every prompt begins with the header and ends with the conversation flow that was given, or the
-- default one, and then the boundaries that were given, or the default ones; what stands between,
-- which is all that depends on the resume, has at most 4428 characters.
pub build_interview_system_prompt-ends :
    (show : Json → String) (loads : String → Option Json)
    → (resume_context flow limits : Option String) (p : String)
    → build_interview_system_prompt show loads resume_context flow limits ≡ ok p
    → (mid : String) × (p
        ≡ header
          +s mid
          +s "\n\n"
          +s or_else flow conversation_flow
          +s "\n\n"
          +s or_else limits boundaries)
      × (str_len mid ≤ 4428)
unfolding build_interview_system_prompt
build_interview_system_prompt-ends show loads resume_context flow limits p h =
    prompt_of-ends show loads (given_resume resume_context) (or_else flow conversation_flow)
      (or_else limits boundaries) p h
