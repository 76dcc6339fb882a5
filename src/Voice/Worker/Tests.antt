-- ===== src/Voice/Worker/Tests.antt =====
-- Runs of the worker, with the parts that it calls.
use hire_os_be.Prelude.{
  ◌&&◌, ◌+◌, ◌++◌, ◌-◌, ◌/◌, ◌<◌, ◌==◌, [], ap, arith, Bool, eqb, false, if◌then◌else◌, length,
  List, map, none, not, Option, refl, some, String, suc, true, zero, ℕ, ◌∷◌, ◌≡◌, ◌≢◌, ◌≤◌,
}
use hire_os_be.Prelude.{
  ◌+s◌, key_error, member, ok, or_else, raise, Result, routing_config_error, str_len,
}
use hire_os_be.Prelude.Dict
use hire_os_be.Prelude.Dict.{Dict}
use hire_os_be.Gateway.Provider.{groq}
use hire_os_be.Gateway.Policy.{get_policy, Policies, UseCasePolicy}
use hire_os_be.Voice.Delivery.{
  confirmed, deliver_transcript, flush_pending, not_utf8, Outbox, payload, Reply, status,
  unreadable,
}
use hire_os_be.Voice.Delivery.Laws.{deliver_transcript_lem, flush_pending_lem}
use hire_os_be.Voice.Worker.Dispatch.{entrypoint, failed, raw_metadata, Read, RoomMetadata, rooms}
use hire_os_be.Voice.Worker.Dispatch.Laws.{
  accepted, delivers, entrypoint-starts, is_interview, is_planned, raw_metadata-first, starts,
}
use hire_os_be.Voice.Worker.Shutdown.{Ended, on_shutdown, Payload, payload_of}
use hire_os_be.Voice.Worker.Shutdown.Laws.{body, on_shutdown-delivers}
use hire_os_be.Voice.Signing.{Metadata, verify_metadata_signature}
use hire_os_be.Voice.Signing.Laws.{value_of, verify_metadata_signature-binds}
use hire_os_be.Voice.Evaluation.{
  build_transcript_text, evaluate_interview, EvaluationLlmOutput, insufficient_data, review,
}
use hire_os_be.Voice.Evaluation.Laws.{evaluate_interview-judged}
use hire_os_be.Prelude.{is_ok, leb}
use hire_os_be.Voice.Worker.Vad
use hire_os_be.Prelude.Json.{Json, json_text}
use hire_os_be.Voice.Transcript.{assistant, extract_transcript_lines, system, user}
use hire_os_be.Gateway.Breaker.{init}
use hire_os_be.Gateway.Client.{complete, content, get_provider_client, World}
use hire_os_be.Gateway.Policy.{ProviderChoice}
use hire_os_be.Gateway.State.{Gateway}
use hire_os_be.Gateway.Structured.{run_structured}
use hire_os_be.Prelude.{other}
use hire_os_be.Voice.Evaluation.Through.{
  evaluate_through, evaluate_through-Judged, evaluation_prompts, Judged, structured_call,
}

abbrev platform : String → String → Reply
platform id text = if id == "s1" then status 201 else status 503

abbrev outbox : Outbox
outbox = record {
  files = ("s0", payload "p0") ∷ ("s1", payload "p1") ∷ ("s2", unreadable) ∷ [];
  posted = [];
}

deliver_transcript-test :
    (Dict.get "s1" (deliver_transcript platform "s1" "p" outbox).1.files ≡ (
      if "s1" == "s1"
      then (if confirmed (platform "s1" "p") then none else some (payload "p"))
      else Dict.get "s1" outbox.files))
    × ((deliver_transcript platform "s1" "p" outbox).1.posted ≡ [] ++ ("s1", "p") ∷ [])
deliver_transcript-test = deliver_transcript_lem platform "s1" "p" "s1" outbox

-- The file of the session "s3" comes after one that is not UTF-8.
abbrev blocked : Outbox
blocked = record {
  files = ("s1", payload "p1") ∷ ("s2", not_utf8) ∷ ("s3", payload "p3") ∷ [];
  posted = [];
}

flush_pending_lem_example :
    let (result, after) = flush_pending (λ d. d) platform blocked in
    (Dict.get "s3" after.files ≡ some (payload "p3")) × (is_ok result ≡ false)
unfolding Dict.has Dict.get
flush_pending_lem_example = flush_pending_lem (λ d. d) platform "s3" blocked refl (λ k. refl)

abbrev hmac : String → String → String
hmac secret text = secret +s text

abbrev signed : Metadata
signed = record {
  metadata_signature = some (json_text "kt\u{1}s\u{1}candidate_interview\u{1}");
  tenant_id = some (json_text "t");
  session_id = some (json_text "s");
  session_type = some (json_text "candidate_interview");
  resume_context = none;
}

abbrev signed_empty_resume : Metadata
signed_empty_resume = record signed { resume_context = some (json_text "") }

-- `compare_digest` takes no signature with a character beyond ASCII.
verify_metadata_signature-test :
    verify_metadata_signature hmac (record signed { metadata_signature = some (json_text "é") }) "k"
    ≡ raise (other "TypeError")
unfolding verify_metadata_signature hire_os_be.Prelude.join
verify_metadata_signature-test = refl

verify_metadata_signature-binds_example :
    (value_of signed.tenant_id ≡ value_of signed_empty_resume.tenant_id)
    × (value_of signed.session_id ≡ value_of signed_empty_resume.session_id)
    × (value_of signed.session_type ≡ value_of signed_empty_resume.session_type)
    × (value_of signed.resume_context ≡ value_of signed_empty_resume.resume_context)
unfolding verify_metadata_signature hire_os_be.Prelude.join
verify_metadata_signature-binds_example =
    verify_metadata_signature-binds hmac "k" signed signed_empty_resume (λ e. refl) refl refl refl
      refl refl

abbrev shown : Json → String
shown j = "?"

abbrev no_json : String → Option Json
no_json s = none

abbrev room : RoomMetadata
room = record { signed = signed; prompt_context = none }

entrypoint-starts_example :
    let effects = entrypoint shown no_json hmac "k" false "room-1" (some room) true in
    let ready =
      accepted hmac "k" "room-1" (some room) && is_planned shown no_json (some room) true in
    (starts effects ≡ ready) × (delivers effects ≡ (ready && is_interview (some room)))
entrypoint-starts_example = entrypoint-starts shown no_json hmac "k" false "room-1" (some room) true

abbrev slow_load : Vad.Prewarm
slow_load = record { load = Vad.loaded; ready_at = 12_000 }

await_vad-bounded_example :
    (5_000 ≤ (Vad.await_vad (some slow_load) 5_000).1)
    × ((Vad.await_vad (some slow_load) 5_000).1 ≤ 5_000 + 10_000)
    × ((Vad.await_vad (some slow_load) 5_000).0
        ≡ (Vad.is_loaded slow_load.load && leb slow_load.ready_at (5_000 + 10_000)))
await_vad-bounded_example = Vad.await_vad-bounded slow_load 5_000

abbrev reads : ℕ → Read
reads zero = failed
reads (suc zero) = rooms (some "{1}")
reads n = rooms (some "{2}")

raw_metadata-first_example : raw_metadata none reads ≡ "{1}"
raw_metadata-first_example =
    raw_metadata-first none reads 1 "{1}" refl (omega arith) only_failed refl
  where
    only_failed : (j : ℕ) → j < 1 → hire_os_be.Voice.Worker.Dispatch.reported (reads j) ≡ none
    only_failed zero h = refl
    only_failed (suc j) h = absurd (omega arith)

abbrev line : String
line =
    "Candidate: I have led a team of six engineers for three years at a company that builds payments."

abbrev call : Ended
call = record {
  history =
      record { role = system; text_content = some "You interview."; created_at = 0 }
      ∷ record { role = assistant; text_content = some "Hello"; created_at = 1 }
      ∷ record { role = user; text_content = some "Hi"; created_at = 2 }
      ∷ [];
  rolling_summary = some "";
  usage = "u" ∷ [];
  now = "2026";
}

abbrev answer : String → Result EvaluationLlmOutput
answer t = ok (record { recommendation = review; overall_assessment = "fine"; topics = [] })

abbrev show : ℕ → String
show n = "0"

abbrev dumps : Payload → String
dumps p = p.tenant_id

on_shutdown-delivers_example :
    let after =
      on_shutdown show (λ t. t) dumps answer platform (some "t") (some "s1") "p" call outbox in
    let sent = body show (λ t. t) dumps answer platform "t" "s1" "p" call in
    (after.posted ≡ [] ++ ("s1", sent) ∷ [])
    × (Dict.get "s1" after.files
        ≡ (if confirmed (platform "s1" sent) then none else some (payload sent)))
    × ((payload_of show (λ t. t) dumps answer platform "t" "s1" "p" call).evaluation
        ≡ evaluate_interview answer "2026" "s1"
            (extract_transcript_lines "Candidate" "Interviewer" call.history))
on_shutdown-delivers_example =
    on_shutdown-delivers show (λ t. t) dumps answer platform "t" "s1" "p" call outbox refl refl

review_is_a_judgement : review ≢ insufficient_data
review_is_a_judgement h = cc

abbrev long_call : List String
long_call = line ∷ line ∷ line ∷ []

evaluate_interview-judged-test :
    (200 ≤ str_len (build_transcript_text long_call))
    × (3 ≤ length long_call)
    × (out : EvaluationLlmOutput) × (answer
          ("Transcript of the screening interview:\n\n" +s build_transcript_text long_call)
        ≡ ok out)
    × ((evaluate_interview answer "2026" "c" long_call).recommendation ≡ out.recommendation)
    × ((evaluate_interview answer "2026" "c" long_call).topics ≡ out.topics)
unfolding evaluate_interview hire_os_be.Prelude.join
evaluate_interview-judged-test =
    evaluate_interview-judged answer "2026" "c" long_call review_is_a_judgement

abbrev evaluation_tier : ProviderChoice
evaluation_tier = record { provider = groq; model = some "m"; timeout = none }

abbrev evaluation_policies : Policies
evaluation_policies =
    ("interview_evaluation", record { chain = evaluation_tier ∷ []; rationale = "" }) ∷ []

abbrev world : World
world = record {
  env = λ k. some "key";
  sdk = λ p. none;
  reply = λ p m n. content (some "{}");
  stream = λ p m n. record { deltas = []; end = none; delay = 3 };
  elapsed = λ n. 7;
}

abbrev accept : String → Option EvaluationLlmOutput
accept s =
    if s == "{}"
    then some (record { recommendation = review; overall_assessment = "fine"; topics = [] })
    else none

abbrev gateway : Gateway
gateway = record { breaker = init; now = 1000; sent = []; logged = [] }

evaluate_through-Judged_example :
    let summary =
      evaluate_through world accept
        (λ o. o.overall_assessment)
        evaluation_policies
        gateway
        "2026"
        "c"
        long_call in
    (200 ≤ str_len (build_transcript_text long_call))
    × (3 ≤ length long_call)
    × (policy : UseCasePolicy) × (get_policy "interview_evaluation" evaluation_policies ≡ ok policy)
    × Judged world accept
        (λ o. o.overall_assessment)
        evaluation_policies
        policy.chain
        summary.recommendation
        summary.topics
unfolding evaluate_through evaluate_interview structured_call evaluation_prompts run_structured
    get_policy Dict.get get_provider_client complete hire_os_be.Prelude.join
evaluate_through-Judged_example =
    evaluate_through-Judged world accept (λ o. o.overall_assessment) evaluation_policies gateway
      "2026" "c" long_call review_is_a_judgement
