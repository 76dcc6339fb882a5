-- ===== src/Voice/Discovery/Extraction.antt =====
-- `_extract` of ai-service/app/voice_agent/discovery_llm.py over `run_structured` of the gateway. The
-- schema is a parameter, with `model_dump_json` of its values. Only an extraction changes the fields, and
-- it holds the lock, so the fields of its prompt are those that it merges into.
use hire_os_be.Prelude.{
  ap, get_elem?, inl, inr, List, none, Option, Option-cases, refl, some, String, ℕ, ◌∙◌, ◌≡◌, ◌⊎◌,
}
use hire_os_be.Prelude.{◌+s◌, caught, caught-some, join, ok, Result}
use hire_os_be.Gateway.Client.{Client, complete, get_provider_client, World}
use hire_os_be.Gateway.Metrics.{Prompts}
use hire_os_be.Gateway.Policy.{get_policy, Policies, ProviderChoice, UseCasePolicy}
use hire_os_be.Gateway.State.{Gateway}
use hire_os_be.Gateway.Structured.{run_structured}
use hire_os_be.Gateway.Structured.Laws.{run_structured-Accepted}
use hire_os_be.Voice.Discovery.{Discovery, extracted, extracting, finish, Step}
use hire_os_be.Voice.Discovery.Laws.{fields-loop}
use hire_os_be.Voice.Fields.{DiscoveryFields, Field}
use hire_os_be.Voice.Fields.Laws.{merge_lem}

abbrev pub extraction_instructions : String
extraction_instructions =
    "You are extracting structured hiring-intake fields from an ongoing discovery "
    +s "conversation between an AI agent and a hiring manager. You are given the fields "
    +s "already captured (as JSON, possibly with nulls) and the full transcript so far. "
    +s "Return a JSON object with the current value for every field.\n" +s "\n"
    +s "For a field the transcript doesn't address at all, or whose value hasn't changed "
    +s "since it was last captured, return null for that field — do not guess, and do not "
    +s "invent a value the hiring manager didn't actually state. If the hiring manager has "
    +s "explicitly revised an earlier answer, return the latest version, not the original. "
    +s "Never include a hire/reject judgment, a score, or anything beyond the facts the "
    +s "hiring manager actually stated."

-- A field after an extraction ended is the field before it, or one of the extracted texts.
fields-extracted :
    (lines : List String) (result : Option DiscoveryFields) (d : Discovery) (f : Field)
    → ((extracted lines result d).fields f ≡ d.fields f)
      ⊎ ((out : DiscoveryFields) × (v : String) × (result ≡ some out)
          × (out f ≡ some v)
          × ((extracted lines result d).fields f ≡ some v))
unfolding extracted
fields-extracted lines none d f = inl (rw fields-loop refl)
fields-extracted lines (some out) d f = elim (Option-cases (out f)) [
  | inl e ↦ inl (rw (fields-loop, merge_lem, e) refl)
  | inr (v, e) ↦ inr (out, v, refl, e, rw (fields-loop, merge_lem, e) refl)
]

module _ (w : World) (validate : String → Option DiscoveryFields)
    (model_dump_json : DiscoveryFields → String) (policies : Policies) where
  unfoldable pub extraction_prompts : List String → Discovery → Prompts
  extraction_prompts lines d = record {
    use_case = "role_discovery_extraction";
    system_prompt = extraction_instructions;
    user_prompt =
        "Fields already captured:\n"
        +s model_dump_json d.fields
        +s "\n\nFull transcript so far:\n"
        +s join "\n" lines;
    context_detail = none;
  }

  unfoldable pub extraction_call :
      Gateway → List String → Discovery → Result DiscoveryFields × Gateway
  unfolding extraction_prompts run_structured
  extraction_call g lines d =
      run_structured w validate model_dump_json policies (extraction_prompts lines d) g

  -- The extraction, with the state that the drain loop goes on from.
  unfoldable pub extract : Gateway → List String → Discovery → Discovery × Gateway
  unfolding extraction_call extracted
  extract g lines d =
      let called = extraction_call g lines d in (extracted lines (caught called.0) d, called.1)

  -- Where an extracted value comes from: a tier of the extraction's chain, and its completion that the
  -- schema accepted.
  pub record Extracted (f : Field) (v : String) : Type 0 where
    pub policy : UseCasePolicy
    pub found : get_policy "role_discovery_extraction" policies ≡ ok policy
    pub place : ℕ
    pub choice : ProviderChoice
    pub at : get_elem? policy.chain place ≡ some choice
    pub client : Client
    pub constructed : get_provider_client w choice.provider choice.model ≡ ok client
    pub turn : ℕ
    pub raw : String
    pub answered : complete w client turn ≡ ok raw
    pub out : DiscoveryFields
    pub accepted : validate raw ≡ some out
    pub stated : out f ≡ some v

  -- An extraction through the gateway is a step of the background extraction.
  pub extract-Step :
      (g : Gateway) (lines : List String) (d : Discovery)
      → d.phase ≡ extracting lines
      → Step d (extract g lines d).0
  unfolding extract
  extract-Step g lines d held = finish lines (caught (extraction_call g lines d).0) held

  -- A field after an extraction is the field before it, or a value in a completion that a tier of the
  -- extraction's chain answered and the schema accepted.
  pub extract-keeps_or_states :
      (g : Gateway) (lines : List String) (d : Discovery) (f : Field)
      → let after = (extract g lines d).0 in
        (after.fields f ≡ d.fields f) ⊎ ((v : String) × (after.fields f ≡ some v) × Extracted f v)
  unfolding extract extraction_call extraction_prompts
  extract-keeps_or_states g lines d f =
      let r = extraction_call g lines d in
      elim (fields-extracted lines (caught r.0) d f) [
        | inl same ↦ inl same
        | inr (out, v, e, stated, new) ↦
            let (policy, found, s, same, acc, cleared, logged) =
              run_structured-Accepted w validate model_dump_json policies
                (extraction_prompts lines d) g out (caught-some r.0 e) in
            inr (
              v,
              new,
              record {
                policy = policy;
                found = found;
                place = acc.place;
                choice = s.choice;
                at = acc.at;
                client = acc.client;
                constructed = acc.constructed;
                turn = acc.turn;
                raw = acc.raw;
                answered = acc.answered;
                out = out;
                accepted = acc.accepted ∙ ap some same;
                stated = stated;
              },
            )
      ]
