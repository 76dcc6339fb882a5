-- ===== src/Gateway/Client.antt =====
-- ai-service/app/model_gateway/providers.py: construction of the clients from the environment, and
-- what a client makes of an answer of its API. The APIs and SDKs are the `World`.
pub mod Laws
use hire_os_be.Prelude.{
  ◌-◌, ◌/◌, [], ap, if◌then◌else◌, List, none, not, Option, some, String, ℕ, ◌∷◌,
}
use hire_os_be.Prelude.{
  Exc, is_set, join, key_error, not_implemented_error, ok, or_else, raise, Result, runtime_error,
  truthy,
}
use hire_os_be.Gateway.Provider.{
  anthropic, gemini, groq, livekit_inference, openai, openrouter, Provider,
}

-- What an API answers to one request: the text of its message, if any, or an exception.
pub data Reply : Type 0 where
  content : Option String → Reply
  fails : Exc → Reply

-- A streamed answer: the pieces' texts, the exception that ends it, if any, and the time to the
-- first event in milliseconds.
pub record Stream : Type 0 where
  pub deltas : List (Option String)
  pub end : Option Exc
  pub delay : ℕ

-- The environment variables; exceptions of the SDKs' constructors and imports; the answer to the
-- n-th request, plain or streamed; and the time that the n-th plain request takes.
pub record World : Type 0 where
  pub env : String → Option String
  pub sdk : Provider → Option Exc
  pub reply : Provider → String → ℕ → Reply
  pub stream : Provider → String → ℕ → Stream
  pub elapsed : ℕ → ℕ

-- `unimplemented` is `_UnimplementedProviderClient`; `inference` is the client of LiveKit, which
-- answers plain requests from its stream.
pub data Client : Type 0 where
  api : Provider → String → Client
  inference : String → Client
  unimplemented : Provider → Client

abbrev pub key_name : Provider → String
key_name openai = "OPENAI_API_KEY"
key_name anthropic = ""
key_name gemini = "GEMINI_API_KEY"
key_name groq = "GROQ_API_KEY"
key_name openrouter = "OPENROUTER_API_KEY"
key_name livekit_inference = "LIVEKIT_API_KEY"

-- The default of the parameter `model`.
abbrev pub default_model : Provider → String
default_model openai = "gpt-4o-mini"
default_model anthropic = ""
default_model gemini = "gemini-flash-latest"
default_model groq = "llama-3.3-70b-versatile"
default_model openrouter = "anthropic/claude-sonnet-5"
default_model livekit_inference = "google/gemini-2.5-flash-lite"

abbrev pub client_of : Provider → String → Client
client_of livekit_inference model = inference model
client_of p model = api p model

module _ (w : World) where
  -- The constructor of a client class: the key is checked first.
  unfoldable pub construct : Provider → String → Result Client
  construct p model =
      if is_set (w.env (key_name p))
      then elim (w.sdk p) [ none ↦ ok (client_of p model) | some e ↦ raise e ]
      else raise (key_error (key_name p))

  unfoldable pub get_provider_client : Provider → Option String → Result Client
  unfolding construct
  get_provider_client anthropic model = ok (unimplemented anthropic)
  get_provider_client p model = construct p (or_else model (default_model p))

-- `if not content: raise RuntimeError(...)`
unfoldable pub checked : String → Reply → Result String
checked model (fails e) = raise e
checked model (content none) = raise (runtime_error model)
checked model (content (some s)) = if truthy s then ok s else raise (runtime_error model)

-- The pieces that a streaming client yields: those with a text.
unfoldable pub pieces : List (Option String) → List String
pieces [] = []
pieces (none ∷ l) = pieces l
pieces (some s ∷ l) = let rest = pieces l in if truthy s then s ∷ rest else rest

-- `LiveKitInferenceProviderClient.complete`
unfoldable pub joined : String → Stream → Result String
unfolding checked pieces
joined model s = elim s.end [
  | some e ↦ raise e
  | none ↦ checked model (content (some (join "" (pieces s.deltas))))
]

-- `complete` and `complete_json`, which differ in the request alone.
unfoldable pub complete : World → Client → ℕ → Result String
unfolding checked joined
complete w (api p model) n = checked model (w.reply p model n)
complete w (inference model) n = joined model (w.stream livekit_inference model n)
complete w (unimplemented p) n = raise not_implemented_error

-- What a client's stream yields.
pub record Chunks : Type 0 where
  pub chunks : List String
  pub end : Option Exc
  pub delay : ℕ

abbrev pub chunks_of : Stream → Chunks
chunks_of s = record { chunks = pieces s.deltas; end = s.end; delay = s.delay }

-- `stream_complete`
unfoldable pub stream_complete : World → Client → ℕ → Chunks
unfolding pieces
stream_complete w (api p model) n = chunks_of (w.stream p model n)
stream_complete w (inference model) n = chunks_of (w.stream livekit_inference model n)
stream_complete w (unimplemented p) n = record {
  chunks = [];
  end = some not_implemented_error;
  delay = 0;
}
