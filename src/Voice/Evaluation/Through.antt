-- ===== src/Voice/Evaluation/Through.antt =====
-- The evaluation of ai-service/app/voice_agent/post_call_evaluation.py over `run_structured` of
-- ai-service/app/model_gateway/gateway.py, whose schema is a parameter.
use hire_os_be.Prelude.{
  ap, get_elem?, length, List, none, Option, some, String, ℕ, ◌∙◌, ◌≡◌, ◌≢◌, ◌≤◌,
}
use hire_os_be.Prelude.{◌+s◌, ok, Result, str_len}
use hire_os_be.Gateway.Client.{Client, complete, get_provider_client, World}
use hire_os_be.Gateway.Metrics.{Prompts}
use hire_os_be.Gateway.Policy.{get_policy, Policies, ProviderChoice, UseCasePolicy}
use hire_os_be.Gateway.State.{Gateway}
use hire_os_be.Gateway.Structured.{run_structured}
use hire_os_be.Gateway.Structured.Laws.{run_structured-Accepted}
use hire_os_be.Voice.Evaluation.{
  build_transcript_text, evaluate_interview, EvaluationLlmOutput, insufficient_data,
  InterviewEvaluationSummary, Recommendation, TopicEvaluation,
}
use hire_os_be.Voice.Evaluation.Laws.{evaluate_interview-judged}

abbrev pub evaluation_system_prompt : String
evaluation_system_prompt =
    "You are producing a post-interview evaluation of a candidate screening call for a "
    +s "human recruiter to review. Evaluate strictly based on what was actually said in the "
    +s "transcript provided — never invent, assume, or infer anything the candidate didn't "
    +s "actually say.\n" +s "\n"
    +s "Respond with ONLY a single JSON object — no prose, no markdown code fences, no "
    +s "commentary before or after. Required shape:\n" +s "\n" +s "{\n"
    +s "  \"recommendation\": one of \"strong_review\" | \"review\" | \"further_assessment\" | "
    +s "\"insufficient_data\",\n"
    +s "  \"overallAssessment\": \"3-5 sentence neutral summary for the recruiter\",\n"
    +s "  \"topics\": [\n" +s "    {\n"
    +s "      \"topic\": \"short label, e.g. 'Background' or 'System design experience'\",\n"
    +s "      \"questionAsked\": \"the interviewer's actual question, verbatim or near-verbatim\",\n"
    +s "      \"responseSummary\": \"1-2 sentence neutral summary of what the candidate said\",\n"
    +s "      \"evidenceStrength\": one of \"strong\" | \"moderate\" | \"weak\" | \"missing\",\n"
    +s "      \"supportingEvidence\": [\"specific quotes or paraphrases backing "
    +s "evidenceStrength\"],\n"
    +s "      \"missingEvidence\": [\"what would have made this stronger, or empty if not "
    +s "applicable\"]\n" +s "    }\n" +s "  ]\n" +s "}\n" +s "\n" +s "Rules:\n"
    +s "- Never state, imply, or compute a numeric score — \"recommendation\" and per-topic\n"
    +s "  \"evidenceStrength\" are the only judgments you make, and both must be traceable to\n"
    +s "  supportingEvidence.\n"
    +s "- \"insufficient_data\" is the correct recommendation when the call ended early, the "
    +s "candidate\n"
    +s "  gave very few substantive answers, or there's a technical/connectivity issue — "
    +s "never let a\n" +s "  short call read as a negative signal about the candidate.\n"
    +s "- Never infer emotion, honesty, personality, or any trait not directly evidenced by "
    +s "what was\n" +s "  said.\n"
    +s "- One topics[] entry per distinct question actually asked and answered — do not "
    +s "fabricate\n" +s "  topics that weren't covered."

unfoldable pub evaluation_prompts : String → Prompts
evaluation_prompts user_prompt = record {
  use_case = "interview_evaluation";
  system_prompt = evaluation_system_prompt;
  user_prompt = user_prompt;
  context_detail = none;
}

module _ (w : World) (validate : String → Option EvaluationLlmOutput)
    (dump : EvaluationLlmOutput → String) (policies : Policies) where
  -- The structured call that the evaluation makes.
  unfoldable pub structured_call : Gateway → String → Result EvaluationLlmOutput × Gateway
  unfolding evaluation_prompts run_structured
  structured_call g user_prompt =
      run_structured w validate dump policies (evaluation_prompts user_prompt) g

  unfoldable pub evaluate_through :
      Gateway → String → String → List String → InterviewEvaluationSummary
  unfolding structured_call evaluate_interview
  evaluate_through g now candidate_ref transcript_lines =
      evaluate_interview (λ user_prompt. (structured_call g user_prompt).0) now candidate_ref
        transcript_lines

  -- Where a judgement comes from: a tier of the evaluation's chain, and its completion that the schema
  -- accepted.
  pub record Judged (chain : List ProviderChoice) (recommendation : Recommendation)
      (topics : List TopicEvaluation) : Type 0 where
    pub place : ℕ
    pub choice : ProviderChoice
    pub at : get_elem? chain place ≡ some choice
    pub client : Client
    pub constructed : get_provider_client w choice.provider choice.model ≡ ok client
    pub turn : ℕ
    pub raw : String
    pub answered : complete w client turn ≡ ok raw
    pub out : EvaluationLlmOutput
    pub accepted : validate raw ≡ some out
    pub recommended : recommendation ≡ out.recommendation
    pub listed : topics ≡ out.topics

  -- If an evaluation through the gateway is anything but "insufficient data", then the transcript had
  -- at least three lines and two hundred characters, and the recommendation and the topics are those of
  -- a completion that a tier of the use case's chain answered and the schema accepted.
  pub evaluate_through-Judged :
      (g : Gateway) (now candidate_ref : String) (lines : List String)
      → (evaluate_through g now candidate_ref lines).recommendation ≢ insufficient_data
      → (200 ≤ str_len (build_transcript_text lines))
        × (3 ≤ length lines)
        × (policy : UseCasePolicy) × (get_policy "interview_evaluation" policies ≡ ok policy)
        × Judged policy.chain
            (evaluate_through g now candidate_ref lines).recommendation
            (evaluate_through g now candidate_ref lines).topics
  unfolding evaluate_through structured_call evaluation_prompts
  evaluate_through-Judged g now candidate_ref lines h =
      let (long, lined, out, answer, r, t) =
        evaluate_interview-judged (λ user_prompt. (structured_call g user_prompt).0) now
          candidate_ref lines h in
      let (policy, found, s, same, acc, cleared, logged) =
        run_structured-Accepted w validate dump policies
          (evaluation_prompts
            ("Transcript of the screening interview:\n\n" +s build_transcript_text lines))
          g out answer in
      (
        long,
        lined,
        policy,
        found,
        record {
          place = acc.place;
          choice = s.choice;
          at = acc.at;
          client = acc.client;
          constructed = acc.constructed;
          turn = acc.turn;
          raw = acc.raw;
          answered = acc.answered;
          out = out;
          accepted = acc.accepted ∙ ap some same;
          recommended = r;
          listed = t;
        },
      )
