-- ===== src/Api.antt =====
-- internal/api: the HTTP handlers.
pub mod Types
pub mod Requester
pub mod Channels
pub mod Profiles
pub mod Tickets
pub mod Router
