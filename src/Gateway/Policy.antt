-- ===== src/Gateway/Policy.antt =====
-- ai-service/app/model_gateway/use_case_policy.py, and `set_livekit_inference_mode` of gateway.py,
-- which overwrites policies. The module-level dictionary USE_CASE_POLICIES is passed as a value.
pub mod Order
pub mod Priority
pub mod Modes
use hire_os_be.Prelude.{
  ◌&&◌, ◌+◌, [], ap, Bool, eqb, if◌then◌else◌, leb, length, List, ltb, map, none, Option, some,
  String, ◌||◌, ℕ, ◌∷◌,
}
use hire_os_be.Prelude.{key_error, ok, raise, Result}
use hire_os_be.Prelude.Dict
use hire_os_be.Prelude.Int.{Float}
use hire_os_be.Prelude.Dict.{Dict}
use hire_os_be.Gateway.Provider.{livekit_inference, Provider, same}

-- A timeout in seconds, as it was given, with the whole milliseconds after which `asyncio.wait_for`, which
-- is a library's, gives up for it.
pub record Timeout : Type 0 where
  pub seconds : Float
  pub deadline : ℕ

pub record ProviderChoice : Type 0 where
  pub provider : Provider
  pub model : Option String
  pub timeout : Option Timeout

pub record UseCasePolicy : Type 0 where
  pub chain : List ProviderChoice
  pub rationale : String

abbrev pub Policies : Type 0
Policies = Dict UseCasePolicy

unfoldable pub get_policy : String → Policies → Result UseCasePolicy
get_policy use_case policies = elim (Dict.get use_case policies) [
  | none ↦ raise (key_error use_case)
  | some p ↦ ok p
]

-- The dictionary `priority`: for a provider that is named twice the last place counts.
unfoldable pub priority : List Provider → ℕ → Provider → Option ℕ
priority [] i p = none
priority (q ∷ order) i p = elim (priority order (i + 1) p) [
  | some j ↦ some j
  | none ↦ if same q p then some i else none
]

abbrev pub Indexed : Type 0
Indexed = ℕ × ProviderChoice

abbrev pub get_or : Option ℕ → ℕ → ℕ
get_or none d = d
get_or (some i) d = i

-- The first part of the sort key; the second is the tier's own place.
unfoldable pub rank : List Provider → Indexed → ℕ
rank order (i, choice) = get_or (priority order 0 choice.provider) (length order + i)

-- The order of the sort keys.
abbrev pub before : List Provider → Indexed → Indexed → Bool
before order a b =
    ltb (rank order a) (rank order b) || (eqb (rank order a) (rank order b) && leb a.0 b.0)

-- Python's sort, here by insertion: no two keys are equal, so the result is the only sorted one.
unfoldable pub insert : List Provider → Indexed → List Indexed → List Indexed
insert order a [] = a ∷ []
insert order a (b ∷ xs) = if before order a b then a ∷ b ∷ xs else b ∷ insert order a xs

unfoldable pub sort : List Provider → List Indexed → List Indexed
unfolding insert
sort order [] = []
sort order (a ∷ xs) = insert order a (sort order xs)

unfoldable pub enumerate : ℕ → List ProviderChoice → List Indexed
enumerate i [] = []
enumerate i (c ∷ chain) = (i, c) ∷ enumerate (i + 1) chain

unfoldable pub reorder_chain : List ProviderChoice → List Provider → List ProviderChoice
unfolding sort enumerate
reorder_chain chain order = map (λ (a : Indexed). a.1) (sort order (enumerate 0 chain))

-- The use cases before a missing one have been changed when the KeyError is raised.
unfoldable pub apply_provider_priority :
    List String → List Provider → Policies → Policies × Result (Unit {0})
unfolding get_policy reorder_chain
apply_provider_priority [] order policies = (policies, ok tt)
apply_provider_priority (use_case ∷ more) order policies = elim (get_policy use_case policies) [
  | raise e ↦ (policies, raise e)
  | ok policy ↦
      apply_provider_priority more order
        (Dict.put use_case (record policy { chain = reorder_chain policy.chain order }) policies)
]

-- `_VOICE_LLM_USE_CASES`
abbrev pub voice_llm_use_cases : List String
voice_llm_use_cases =
    "voice_interview_turn" ∷ "voice_interview_summary" ∷ "role_discovery_turn"
    ∷ "role_discovery_extraction" ∷ []

unfoldable pub inference_chain : Timeout → List String → List ProviderChoice
inference_chain timeout models =
    map (λ m. record { provider = livekit_inference; model = some m; timeout = some timeout })
      models

unfoldable pub overwrite : UseCasePolicy → List String → Policies → Policies
overwrite policy [] policies = policies
overwrite policy (use_case ∷ more) policies =
    overwrite policy more
      (if Dict.has use_case policies then Dict.put use_case policy policies else policies)

-- The text of `rationale` is an argument: it only describes the models.
unfoldable pub set_livekit_inference_mode :
    (primary : String) (fallbacks : List String) (timeout : Timeout) (rationale : String)
    → Policies
    → Policies
unfolding inference_chain overwrite
set_livekit_inference_mode primary fallbacks timeout rationale =
    overwrite
      (record { chain = inference_chain timeout (primary ∷ fallbacks); rationale = rationale })
      voice_llm_use_cases
