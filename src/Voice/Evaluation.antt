-- ===== src/Voice/Evaluation.antt =====
-- ai-service/app/voice_agent/post_call_evaluation.py and evaluation_schema.py. The language model's
-- answer is a parameter: an output that fits the schema, or the exception that `run_structured` raises.
pub mod Laws
pub mod Through
use hire_os_be.Prelude.{◌+◌, [], if◌then◌else◌, length, List, ltb, not, String, ◌||◌}
use hire_os_be.Prelude.{◌+s◌, join, ok, raise, Result, str_len}

pub data Recommendation : Type 0 where
  strong_review review further_assessment insufficient_data : Recommendation

pub data EvidenceStrength : Type 0 where
  strong moderate weak missing : EvidenceStrength

pub record TopicEvaluation : Type 0 where
  pub topic : String
  pub question_asked : String
  pub response_summary : String
  pub evidence_strength : EvidenceStrength
  pub supporting_evidence : List String
  pub missing_evidence : List String

pub record EvaluationLlmOutput : Type 0 where
  pub recommendation : Recommendation
  pub overall_assessment : String
  pub topics : List TopicEvaluation

pub record InterviewEvaluationSummary : Type 0 where
  pub candidate_ref : String
  pub recommendation : Recommendation
  pub overall_assessment : String
  pub topics : List TopicEvaluation
  pub model_version : String
  pub generated_at : String

abbrev pub model_version : String
model_version = "model_gateway:interview_evaluation"

unfoldable pub build_transcript_text : List String → String
build_transcript_text lines = join "\n" lines

-- `now` is the time of the call, as text.
unfoldable pub fallback_summary : String → String → String → InterviewEvaluationSummary
fallback_summary now candidate_ref reason = record {
  candidate_ref = candidate_ref;
  recommendation = insufficient_data;
  overall_assessment = reason;
  topics = [];
  model_version = model_version;
  generated_at = now;
}

unfoldable pub summary_of :
    String → String → Result EvaluationLlmOutput → InterviewEvaluationSummary
unfolding fallback_summary
summary_of now candidate_ref (raise e) =
    fallback_summary now candidate_ref
      "Automated evaluation could not be generated for this interview."
summary_of now candidate_ref (ok out) = record {
  candidate_ref = candidate_ref;
  recommendation = out.recommendation;
  overall_assessment = out.overall_assessment;
  topics = out.topics;
  model_version = model_version;
  generated_at = now;
}

unfoldable pub evaluate_interview :
    (String → Result EvaluationLlmOutput)
    → String
    → String
    → List String
    → InterviewEvaluationSummary
unfolding build_transcript_text fallback_summary summary_of
evaluate_interview run_structured now candidate_ref transcript_lines =
    let transcript = build_transcript_text transcript_lines in
    if ltb (str_len transcript) 200 || ltb (length transcript_lines) 3
    then fallback_summary now candidate_ref
        "The call ended before enough of the interview took place to evaluate."
    else summary_of now candidate_ref
        (run_structured ("Transcript of the screening interview:\n\n" +s transcript))
