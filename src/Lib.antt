-- ===== src/Lib.antt =====
-- A verification library for the AI service of HireOS (ai-service/): the gateway to language models
-- and the voice agent that conducts interviews, with its development dashboard.
--
-- The program's parts. The gateway (ai-service/app/model_gateway) takes a use case, looks up its
-- chain of (provider, model, timeout) tiers and tries them in order: `run` for a text,
-- `run_structured` for a value of a schema and `run_stream` for chunks. A circuit breaker, which
-- the three share, skips providers in a cooldown. The policies come from a YAML file, may be
-- reordered by a provider priority and are overwritten in the LiveKit inference mode. The voice
-- agent (ai-service/app/voice_agent) calls the gateway for the turns of an interview, folds older
-- lines into a summary in the background, extracts the fields of a hiring manager's intake in the
-- background, nudges a silent human and, when the call ends, evaluates it and delivers the
-- transcript through an outbox. The worker that takes a call builds its prompts, with the
-- candidate's resume compacted, and its speech clients. For development, the gateway and the agent
-- append records to local files (model_gateway/metrics_log.py), which a dashboard
-- (ai-service/app/dev_tools) reads and pushes to its sockets; ai-service/app/main.py mounts it in
-- development environments. The prompt registry (ai-service/app/registry) keeps which prompt
-- versions are approved.
--
-- Files. Prelude: shared names; Prelude/Tests: Boolean tests and conditionals; Prelude/Lists: lists
-- and slices over native numbers; Prelude/Results: exceptions as values; Prelude/Text: Python's
-- text methods; Prelude/Dict: dictionaries in insertion order; Prelude/Int: signed numbers and
-- floats; Prelude/Json: JSON values. Gateway/Provider, Gateway/Client: providers.py.
-- Gateway/Breaker: circuit_breaker.py. Gateway/Policy: use_case_policy.py and
-- `set_livekit_inference_mode`, with Priority for the order that it makes. Gateway/Routing:
-- routing_config.py. Gateway/State, Gateway/Metrics, Gateway/Run, Gateway/Structured,
-- Gateway/Streaming: gateway.py, `_handle_provider_exc` in State and `_log_metrics` in Metrics.
-- Gateway/Follows: what every step of a call keeps. Voice/Transcript: llm_streaming.py.
-- Voice/Rolling: gateway_llm.py, with Turn for a whole turn over the gateway's stream and
-- Consolidation for its summary call. Voice/Fields, Voice/Discovery: discovery_fields.py,
-- discovery_llm.py, with Turn for a whole turn, Extraction for the structured call and Call for the
-- two in any order. Voice/Handlers: conversation_start.py, controls.py. Voice/Latency:
-- latency_metrics.py, dev_metrics.py. Voice/Delivery: transcript_delivery.py. Voice/Signing:
-- metadata_signing.py. Voice/Evaluation: post_call_evaluation.py, evaluation_schema.py, with
-- Through for the evaluation over the gateway. Voice/Settings: config.py. Voice/Tuning:
-- voice_tuning_config.py. Voice/Worker: worker.py, with Reload for the routing file, Main for
-- `main` up to the start of the framework, Dispatch for `_room_metadata` and `entrypoint`, Vad for
-- `_prewarm` and the wait for it, Shutdown for the delivery. Voice/Session: session.py.
-- Voice/Prompts: prompts.py, with Texts for its texts, Build for the prompt and DiscoveryTexts for
-- hiring_manager_prompts.py. Voice/PromptsV2: promptsv2.py. Dev/MetricsLog: metrics_log.py.
-- Dev/Watcher: metrics_ws.py, with Awaits for a broadcast during which sockets come and go.
-- Dev/Dashboard: the endpoints of metrics_dashboard.py. Dev/Trace: the record that `_log_metrics`
-- of gateway.py appends. Dev/Codec: a pair of functions that can stand for `json.dumps` and
-- `json.loads` in the tests. App: main.py. Registry: ai-service/app/registry/prompt_registry.py.
-- Operations keep their names, without a leading underscore. A module's theorems are in its
-- children, and Gateway/Tests, Voice/Tests, Voice/CallTests, Voice/MemoryTests, Voice/Worker/Tests,
-- Voice/Worker/StartTests, Dev/Tests, App/Tests and Registry/Tests run them on concrete inputs.
--
-- How state and effects are modelled. The gateway's state is the record `Gateway`: the breaker, a
-- clock, the requests sent and the records logged. A call takes the state and gives the new one.
-- The APIs, SDKs and environment variables are the record `World`, an argument. Exceptions are the
-- constructor `raise`. Background tasks are step relations (`Step`, `Reach`) whose steps run from
-- one `await` to the next, so every interleaving is a sequence of steps. The dashboard's watcher is
-- the record `Watcher`, which `tick` advances by one turn of its task. A file is the list of its
-- lines, and what the operating system refuses is an argument. Times are whole milliseconds, and in
-- the metrics files the ticks of `time.time()`. A timeout is kept as the float that was given, with
-- the whole milliseconds after which `asyncio.wait_for` gives up for it.
--
-- Bounds and fuel. All loops go over a list or a count that the code has (the chain, two attempts
-- on a structured tier, five reads of the metadata), so the functions are total and need no fuel.
--
-- Not modelled: the bodies of requests to the APIs, YAML and JSON parsing, hashing and the LiveKit
-- framework, which are libraries and appear as parameters or as data that keep their arguments; the
-- dashboard's page, which is HTML and JavaScript; what the code does with a resume that is a JSON
-- list, which only an unsigned console room can bring; and the health checks of
-- ai-service/app/agents, which answer a fixed text.
pub mod Prelude
pub mod Gateway
pub mod Voice
pub mod Dev
pub mod App
pub mod Registry
