-- ===== src/Dev.antt =====
-- The development tools: ai-service/app/model_gateway/metrics_log.py and ai-service/app/dev_tools.
pub mod MetricsLog
pub mod Watcher
pub mod Dashboard
pub mod Trace
pub mod Codec
mod Tests
