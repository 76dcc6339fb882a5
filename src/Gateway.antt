-- ===== src/Gateway.antt =====
-- ai-service/app/model_gateway: the providers, their health, the routing policies and the gateway.
pub mod Provider
pub mod Breaker
pub mod Policy
pub mod Routing
pub mod Client
pub mod Metrics
pub mod State
pub mod Follows
pub mod Run
pub mod Structured
pub mod Streaming
mod Tests
