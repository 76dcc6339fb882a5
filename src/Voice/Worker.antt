-- ===== src/Voice/Worker.antt =====
-- ai-service/app/voice_agent/worker.py.
pub mod Reload
pub mod Dispatch
pub mod Vad
pub mod Shutdown
pub mod Main
mod Tests
mod StartTests
