-- ===== src/Voice/Evaluation/Laws.antt =====
-- A judgement on a candidate comes from the model's answer on a long enough transcript.
use hire_os_be.Prelude.{
  arith, Bool-cases, inl, inr, length, List, ltb, refl, String, ◌||◌, ◌≡◌, ◌≢◌, ◌≤◌,
}
use hire_os_be.Prelude.{◌+s◌, ok, raise, Result, str_len}
use hire_os_be.Voice.Evaluation.{
  build_transcript_text, evaluate_interview, EvaluationLlmOutput, fallback_summary,
  insufficient_data, summary_of,
}

summary_of-judged :
    (answer : Result EvaluationLlmOutput) (now ref : String)
    → (summary_of now ref answer).recommendation ≢ insufficient_data
    → (out : EvaluationLlmOutput) × (answer ≡ ok out)
      × ((summary_of now ref answer).recommendation ≡ out.recommendation)
      × ((summary_of now ref answer).topics ≡ out.topics)
unfolding summary_of fallback_summary
summary_of-judged (ok out) now ref h = (out, refl, refl, refl)
summary_of-judged (raise e) now ref h = absurd (h refl)

-- If an evaluation is anything but "insufficient data", then the transcript had at least three lines
-- and two hundred characters, and the recommendation and the topics are those of the model's answer
-- for that transcript: a short call or a failed evaluation is never a judgement on the candidate.
pub evaluate_interview-judged :
    (run_structured : String → Result EvaluationLlmOutput) (now candidate_ref : String)
    (lines : List String)
    → let summary = evaluate_interview run_structured now candidate_ref lines in
      summary.recommendation ≢ insufficient_data
      → (200 ≤ str_len (build_transcript_text lines))
        × (3 ≤ length lines)
        × (out : EvaluationLlmOutput) × (run_structured
              ("Transcript of the screening interview:\n\n" +s build_transcript_text lines)
            ≡ ok out)
        × (summary.recommendation ≡ out.recommendation)
        × (summary.topics ≡ out.topics)
unfolding evaluate_interview fallback_summary
evaluate_interview-judged run now ref lines h =
    elim (Bool-cases (ltb (str_len (build_transcript_text lines)) 200 || ltb (length lines) 3)) [
      | inl short ↦ absurd ((rw short at h) refl)
      | inr long ↦
          let (out, answer, r, t) =
            summary_of-judged
              (run ("Transcript of the screening interview:\n\n" +s build_transcript_text lines))
              now ref (rw long at h) in
          (ground arith, ground arith, out, answer, rw long r, rw long t)
    ]
