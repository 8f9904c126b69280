-- ===== src/Search.antt =====
-- internal/search: the planner of a search, and the manager of the connectors.
pub mod Planner
pub mod Manager
pub mod Registry
mod Tests
