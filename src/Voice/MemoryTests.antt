-- ===== src/Voice/MemoryTests.antt =====
-- The background calls of the two memories at concrete inputs.
use hire_os_be.Prelude.{
  ◌++◌, ◌-◌, ◌==◌, [], if◌then◌else◌, length, List, none, Option, refl, some, String, ◌∷◌, ◌≡◌,
}
use hire_os_be.Gateway.Breaker.{init, is_available}
use hire_os_be.Gateway.Client.{complete, content, get_provider_client, stream_complete, World}
use hire_os_be.Gateway.Policy.{get_policy, Policies, UseCasePolicy}
use hire_os_be.Gateway.Provider.{groq}
use hire_os_be.Gateway.Run.Reach.{IsHealthy}
use hire_os_be.Gateway.Run.Served.{Served}
use hire_os_be.Gateway.State.{Gateway}
use hire_os_be.Prelude.Dict
use hire_os_be.Voice.Discovery
use hire_os_be.Voice.Discovery.{acquire, Discovery}
use hire_os_be.Voice.Discovery.Call.{
  CallReach, CallReach-Extracted, extraction, goes, lock, starts, turn,
}
use hire_os_be.Voice.Discovery.Extraction.{extract, Extracted}
use hire_os_be.Voice.Discovery.Turn.{run_discovery_turn}
use hire_os_be.Voice.Fields.{DiscoveryFields, empty, Field, hiring_reason}
use hire_os_be.Voice.Rolling
use hire_os_be.Voice.Rolling.{folding, Rolling, segment, unlocked, window_lines}
use hire_os_be.Voice.Rolling.Consolidation.{consolidate, consolidate-folds, summary_prompts}
use hire_os_be.Voice.Transcript.{Message, user}

abbrev world : World
world = record {
  env = λ k. some "key";
  sdk = λ p. none;
  reply = λ p m n. content (some "{}");
  stream = λ p m n. record { deltas = some "Why now?" ∷ []; end = none; delay = 3 };
  elapsed = λ n. 7;
}

abbrev only_groq : UseCasePolicy
only_groq = record {
  chain = record { provider = groq; model = some "m"; timeout = none } ∷ [];
  rationale = "";
}

abbrev policies : Policies
policies =
    ("voice_interview_summary", only_groq)
    ∷ ("role_discovery_turn", only_groq)
    ∷ ("role_discovery_extraction", only_groq)
    ∷ []

abbrev gateway : Gateway
gateway = record { breaker = init; now = 1000; sent = []; logged = [] }

groq-IsHealthy : IsHealthy world groq
unfolding get_provider_client complete
groq-IsHealthy model = (_, refl, λ n. ("{}", refl))

abbrev eleven : List String
eleven = "a" ∷ "b" ∷ "c" ∷ "d" ∷ "e" ∷ "f" ∷ "g" ∷ "h" ∷ "i" ∷ "j" ∷ "k" ∷ []

abbrev memory : Rolling
memory = record Rolling.init { flight = folding eleven; lines = eleven }

consolidate-folds_example :
    let after = (consolidate world policies gateway eleven memory).0 in
    (after.folded ≡ [] ++ segment 0 eleven)
    × (after.summarized ≡ length eleven - window_lines)
    × (after.flight ≡ unlocked)
    × Served world
        (summary_prompts world policies eleven memory)
        only_groq.chain
        0
        gateway
        (consolidate world policies gateway eleven memory).1
        after.summary
unfolding get_policy is_available Dict.get
consolidate-folds_example =
    consolidate-folds world policies gateway eleven memory only_groq groq refl groq-IsHealthy refl
      refl

abbrev accept : String → Option DiscoveryFields
accept s = if s == "{}" then some (λ f. some "growth") else none

abbrev dump : DiscoveryFields → String
dump d = "{}"

abbrev said : List Message
said = record { role = user; text_content = some "We grow"; created_at = 1 } ∷ []

abbrev asked : Discovery
unfolding run_discovery_turn
asked = (run_discovery_turn world "r" policies "You ask." said gateway Discovery.init).memory

abbrev collected : Discovery
unfolding extract acquire
collected =
    (extract world accept dump policies gateway ("Hiring Manager: We grow" ∷ [])
      (acquire 0 asked)).0

collected-CallReach : CallReach world accept dump policies collected
unfolding run_discovery_turn extract acquire get_policy Dict.get get_provider_client stream_complete
    hire_os_be.Voice.Transcript.extract_transcript_lines
collected-CallReach =
    goes (goes (goes starts (turn "r" "You ask." said gateway)) (lock 0 refl refl))
      (extraction ("Hiring Manager: We grow" ∷ []) gateway refl)

CallReach-Extracted_example : Extracted world accept dump policies hiring_reason "growth"
unfolding run_discovery_turn extract acquire get_policy Dict.get get_provider_client stream_complete
    hire_os_be.Voice.Transcript.extract_transcript_lines complete hire_os_be.Voice.Fields.merge
CallReach-Extracted_example =
    CallReach-Extracted world accept dump policies hiring_reason "growth" collected-CallReach refl
