-- ===== src/Connectors.antt =====
-- internal/connectors: what the connectors that ask SearXNG share, and the web connector.
pub mod Api
pub mod Degradation
pub mod Indexed
pub mod LocalIndex
pub mod OfficialDocs
pub mod Web
mod Tests
