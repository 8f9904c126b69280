-- ===== src/Fetch.antt =====
-- internal/fetch: the engine behind every outbound request of the tools.
pub mod Address
pub mod Config
pub mod Retry
pub mod World
pub mod Redirect
pub mod Engine
pub mod Extractor
pub mod Surface
pub mod Pool
pub mod Slots
mod Tests
