-- ===== src/Voice/Rolling/Consolidation.antt =====
-- `_consolidate` of ai-service/app/voice_agent/gateway_llm.py over `run` of the gateway. Only a
-- consolidation changes the summary, and it holds the lock, so the summary of its prompt is the one that
-- it replaces.
use hire_os_be.Prelude.{
  ◌++◌, ◌-◌, ap, arith, length, List, none, refl, some, String, subst, sym, true, ◌≡◌,
}
use hire_os_be.Prelude.{◌+s◌, caught, ok, Result}
use hire_os_be.Gateway.Breaker.{is_available}
use hire_os_be.Gateway.Client.{World}
use hire_os_be.Gateway.Metrics.{Prompts}
use hire_os_be.Gateway.Policy.{get_policy, Policies, UseCasePolicy}
use hire_os_be.Gateway.Provider.{Provider}
use hire_os_be.Gateway.Run.{run}
use hire_os_be.Gateway.Run.Reach.{IsHealthy, names, run-IsHealthy}
use hire_os_be.Gateway.Run.Served.{run-Served, Served}
use hire_os_be.Gateway.State.{Gateway}
use hire_os_be.Voice.Rolling.{
  consolidation_prompt, finish, finish_consolidation, folding, Rolling, segment, Step, unlocked,
  window_lines,
}

abbrev pub summary_instructions : String
summary_instructions =
    "You are maintaining a running summary of an ongoing job interview for the "
    +s "interviewer's own later reference — not for the candidate. Given the existing summary "
    +s "(if any) and a new chunk of the transcript, produce an updated summary that "
    +s "preserves: topics and questions already asked, key facts the candidate stated about "
    +s "their background, and any commitments made (e.g. \"will follow up on X\"). Keep it "
    +s "compact — a few sentences or short bullet points, not a full retelling. Never include "
    +s "a score, rating, or hire/reject judgment."

folds :
    (lines : List String) (r : Rolling) (text : String) (result : Result String)
    → result ≡ ok text
    → finish_consolidation lines (caught result) r ≡ finish_consolidation lines (some text) r
folds lines r text result h = rw h refl

module _ (w : World) (policies : Policies) where
  unfoldable pub summary_prompts : List String → Rolling → Prompts
  unfolding consolidation_prompt segment
  summary_prompts lines r = record {
    use_case = "voice_interview_summary";
    system_prompt = summary_instructions;
    user_prompt = consolidation_prompt r.summary (segment r.summarized lines);
    context_detail = none;
  }

  unfoldable pub summary_call : Gateway → List String → Rolling → Result String × Gateway
  unfolding summary_prompts run
  summary_call g lines r = run w policies (summary_prompts lines r) g

  -- The consolidation from its call on; the lock is released.
  unfoldable pub consolidate : Gateway → List String → Rolling → Rolling × Gateway
  unfolding summary_call finish_consolidation
  consolidate g lines r =
      let called = summary_call g lines r in
      (finish_consolidation lines (caught called.0) r, called.1)

  -- A consolidation through the gateway is a step of the rolling memory.
  consolidate-Step :
      (g : Gateway) (lines : List String) (r : Rolling)
      → r.flight ≡ folding lines
      → Step r (consolidate g lines r).0
  unfolding consolidate
  consolidate-Step g lines r held = finish lines (caught (summary_call g lines r).0) held

  -- If one provider of the summary's chain is out of its cooldown and every model of it can be
  -- constructed and always completes, a consolidation folds its segment however the other providers
  -- fail: the new summary is a tier's completion, and the lines before the window count as summarised.
  pub consolidate-folds :
      (g : Gateway) (lines : List String) (r : Rolling) (policy : UseCasePolicy) (q : Provider)
      → get_policy "voice_interview_summary" policies ≡ ok policy
      → IsHealthy w q
      → names w q policy.chain ≡ true
      → is_available g.breaker g.now q ≡ true
      → let after = (consolidate g lines r).0 in
        (after.folded ≡ r.folded ++ segment r.summarized lines)
        × (after.summarized ≡ length lines - window_lines)
        × (after.flight ≡ unlocked)
        × (Served w
            (summary_prompts lines r)
            policy.chain
            0
            g
            (consolidate g lines r).1
            after.summary)
  unfolding consolidate summary_call summary_prompts finish_consolidation
  consolidate-folds g lines r policy q found healthy named free =
      let p = summary_prompts lines r in
      let (text, answered) = run-IsHealthy w policies p g policy q found healthy named free in
      let (chosen, found', served) = run-Served w policies p g text answered in
      let same : chosen ≡ policy = ground (arith, found, found') in
      let after = folds lines r text (summary_call g lines r).0 answered in
      (
        ap (λ s. s.folded) after,
        ap (λ s. s.summarized) after,
        ap (λ s. s.flight) after,
        subst (λ s. Served w p policy.chain 0 g (consolidate g lines r).1 s)
            (sym (ap (λ s. s.summary) after))
            (subst (λ c. Served w p c.chain 0 g (consolidate g lines r).1 text) same served),
      )
