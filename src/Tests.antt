-- ===== src/Tests.antt =====
-- Concrete worlds, and the theorems at concrete inputs.
pub mod World
pub mod Logs
pub mod Starting
pub mod Routes
pub mod Serving
pub mod Running
pub mod Converging
pub mod Recording
pub mod Copies
pub mod Recovering
pub mod RedisServer
pub mod RedisCaches
pub mod Reconciling
pub mod Endpoints
pub mod Caches
pub mod Histories
