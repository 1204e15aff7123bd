-- ===== src/App.antt =====
-- internal/app: the configuration of the server, and what it says of its build.
pub mod Config
pub mod BuildInfo
