-- ===== src/Routing.antt =====
-- internal/router/router.go: which route a message takes and which provider serves it.
pub mod Types
pub mod Match
pub mod Provider
pub mod Tests
