-- ===== src/Gateway/Provider.antt =====
-- The `Provider` enumeration of ai-service/app/model_gateway/providers.py.
use hire_os_be.Prelude.{
  ◌==◌, arith, Bool, eqb, if◌then◌else◌, none, Option, refl, some, String, true, ℕ, ◌≡◌,
}

pub data Provider : Type 0 where
  openai anthropic gemini groq openrouter livekit_inference : Provider

abbrev pub value : Provider → String
value openai = "openai"
value anthropic = "anthropic"
value gemini = "gemini"
value groq = "groq"
value openrouter = "openrouter"
value livekit_inference = "livekit_inference"

-- `Provider(name)`: none stands for the ValueError.
unfoldable pub of_value : String → Option Provider
of_value name =
    if name == "openai"
    then some openai
    else if name == "anthropic"
    then some anthropic
    else if name == "gemini"
    then some gemini
    else if name == "groq"
    then some groq
    else if name == "openrouter"
    then some openrouter
    else if name == "livekit_inference"
    then some livekit_inference
    else none

abbrev pub place : Provider → ℕ
place openai = 0
place anthropic = 1
place gemini = 2
place groq = 3
place openrouter = 4
place livekit_inference = 5

-- Equality of two members.
abbrev pub same : Provider → Provider → Bool
same p q = eqb (place p) (place q)

pub same_refl : (p : Provider) → same p p ≡ true
same_refl p = ground arith

pub same-eq : (p q : Provider) → same p q ≡ true → p ≡ q
same-eq p q h = ground arith

pub of_value-value : (p : Provider) → of_value (value p) ≡ some p
unfolding of_value
of_value-value openai = refl
of_value-value anthropic = refl
of_value-value gemini = refl
of_value-value groq = refl
of_value-value openrouter = refl
of_value-value livekit_inference = refl
