-- ===== src/Gateway/Routing.antt =====
-- ai-service/app/model_gateway/routing_config.py. Reading the file and parsing YAML into values of
-- the declared field types are libraries': a `Source` is what they answer.
pub mod Chains
pub mod Laws
use hire_os_be.Prelude.{◌>>◌, ◌>>=◌}
use hire_os_be.Prelude.{
  ◌&&◌, ◌==◌, [], ap, Bool, false, if◌then◌else◌, is_empty, List, map, none, not, Option, some,
  String, take, ◌||◌, ◌∷◌,
}
use hire_os_be.Prelude.{ok, other, raise, raise_if, Result, routing_config_error, value_error}
use hire_os_be.Prelude.Int.{is_le_zero}
use hire_os_be.Prelude.Dict
use hire_os_be.Prelude.Dict.{Dict}
use hire_os_be.Gateway.Provider.{of_value, Provider}
use hire_os_be.Gateway.Policy.{Policies, ProviderChoice, Timeout, UseCasePolicy}

abbrev pub required_use_cases : List String
required_use_cases =
    "role_intake_scorecard" ∷ "resume_parsing" ∷ "evidence_matching" ∷ "interview_evaluation"
    ∷ "candidate_report" ∷ "voice_interview_turn" ∷ "voice_interview_summary"
    ∷ "role_discovery_turn" ∷ "role_discovery_extraction" ∷ []

pub record ChainEntry : Type 0 where
  pub provider : String
  pub model : String
  pub timeout : Option Timeout

pub record UseCasePolicyEntry : Type 0 where
  pub chain : List ChainEntry
  pub rationale : String

-- `not_utf8` raises UnicodeDecodeError when it is read, which nothing catches. `malformed`: a missing, extra or ill-typed field, which pydantic refuses before the validators.
pub data Source : Type 0 where
  unreadable not_utf8 not_yaml not_a_mapping malformed : Source
  use_cases : Dict UseCasePolicyEntry → Source

unfoldable pub valid_provider : String → Result String
valid_provider value = elim (of_value value) [
  | none ↦ raise (value_error "unknown provider")
  | some p ↦ ok value
]

unfoldable pub positive_timeout : Option Timeout → Result (Option Timeout)
positive_timeout none = ok none
positive_timeout (some t) =
    if is_le_zero t.seconds then raise (value_error "timeout_s must be > 0") else ok (some t)

abbrev pub same_key : ChainEntry → ChainEntry → Bool
same_key a b = a.provider == b.provider && a.model == b.model

unfoldable pub seen : ChainEntry → List ChainEntry → Bool
seen a [] = false
seen a (b ∷ l) = same_key a b || seen a l

-- The loop of `_non_empty_chain`; the entries that it has passed are the set `seen`.
unfoldable pub unique_from : List ChainEntry → List ChainEntry → Result (Unit {0})
unfolding seen
unique_from passed [] = ok tt
unique_from passed (a ∷ l) =
    let rest = unique_from (a ∷ passed) l in
    if seen a passed then raise (value_error "duplicate (provider, model) in chain") else rest

unfoldable pub non_empty_chain : List ChainEntry → Result (List ChainEntry)
unfolding unique_from
non_empty_chain [] = raise (value_error "chain must have at least one entry")
non_empty_chain (a ∷ l) = do unique_from [] (a ∷ l); ok (a ∷ l)

-- The validators of one entry's fields.
unfoldable pub check_entry : ChainEntry → Result (Unit {0})
unfolding valid_provider positive_timeout
check_entry a = do p ← valid_provider a.provider; t ← positive_timeout a.timeout; ok tt

unfoldable pub check_entries : List ChainEntry → Result (Unit {0})
unfolding check_entry
check_entries [] = ok tt
check_entries (a ∷ l) = do check_entry a; check_entries l

unfoldable pub check_policies : Dict UseCasePolicyEntry → Result (Unit {0})
unfolding check_entries non_empty_chain
check_policies [] = ok tt
check_policies ((k, e) ∷ more) = do
  check_entries e.chain
  c ← non_empty_chain e.chain
  check_policies more

unfoldable pub missing : List String → Dict UseCasePolicyEntry → List String
missing [] d = []
missing (u ∷ l) d = let rest = missing l d in if Dict.has u d then rest else u ∷ rest

unfoldable pub all_required_present : Dict UseCasePolicyEntry → Result (Unit {0})
unfolding missing
all_required_present d =
    raise_if (not (is_empty (missing required_use_cases d)))
      (value_error "routing config is missing required use case(s)")

abbrev pub choice_with : ChainEntry → Provider → ProviderChoice
choice_with a p = record { provider = p; model = some a.model; timeout = a.timeout }

-- `Provider(choice.provider)`; the validator has refused every name for which this would raise.
unfoldable pub choice_of : ChainEntry → Result ProviderChoice
choice_of a = elim (of_value a.provider) [
  | none ↦ raise (value_error "not a valid Provider")
  | some p ↦ ok (choice_with a p)
]

unfoldable pub choices_of : List ChainEntry → Result (List ProviderChoice)
unfolding choice_of
choices_of [] = ok []
choices_of (a ∷ l) = do c ← choice_of a; cs ← choices_of l; ok (c ∷ cs)

unfoldable pub policies_of : Dict UseCasePolicyEntry → Result Policies
unfolding choices_of
policies_of [] = ok []
policies_of ((k, e) ∷ more) = do
  c ← choices_of e.chain
  rest ← policies_of more
  ok ((k, record { chain = c; rationale = e.rationale }) ∷ rest)

-- `except Exception as exc: raise RoutingConfigError`
abbrev pub as_routing_config_error {ℓ} : {A : Type ℓ} → Result A → Result A
as_routing_config_error (ok a) = ok a
as_routing_config_error (raise e) = raise routing_config_error

unfoldable pub parse : Dict UseCasePolicyEntry → Result (Unit {0})
unfolding check_policies all_required_present
parse d = do check_policies d; all_required_present d

unfoldable pub load_routing_config : Source → Result Policies
unfolding parse policies_of
load_routing_config (use_cases d) = do as_routing_config_error (parse d); policies_of d
load_routing_config not_utf8 = raise (other "UnicodeDecodeError")
load_routing_config _ = raise routing_config_error
