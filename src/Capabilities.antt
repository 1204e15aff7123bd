-- ===== src/Capabilities.antt =====
-- internal/capabilities/service.go: what the server says that it can do.
pub mod Types
pub mod Build
