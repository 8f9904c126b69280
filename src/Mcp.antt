-- ===== src/Mcp.antt =====
-- internal/mcp: the server of the Model Context Protocol, its tools and its transports.
pub mod State
pub mod Wire
pub mod Search
pub mod Stateful
pub mod Tools
pub mod Resources
pub mod Rpc
pub mod Http
pub mod Streams
pub mod Recorder
pub mod Direct
pub mod Stdio
mod Tests
mod SurfaceTests
