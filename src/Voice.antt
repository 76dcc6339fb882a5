-- ===== src/Voice.antt =====
-- ai-service/app/voice_agent: the two personas' memories, the call's event handlers, settings,
-- delivery of transcripts and the worker.
pub mod Transcript
pub mod Fields
pub mod Discovery
pub mod Rolling
pub mod Handlers
pub mod Delivery
pub mod Latency
pub mod Signing
pub mod Evaluation
pub mod Tuning
pub mod Settings
pub mod Session
pub mod Prompts
pub mod PromptsV2
pub mod Worker
mod Tests
mod CallTests
mod MemoryTests
