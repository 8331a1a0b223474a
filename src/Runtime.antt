-- ===== src/Runtime.antt =====
-- backend/app/providers/runtime: what stands between the platform and a provider's API.
pub mod Breaker
pub mod Limiter
pub mod Retry
pub mod Coordinator
pub mod Fallback
mod Tests
