-- ===== src/Profile.antt =====
-- internal/profile/service.go: the profiles of users and their avatars, held in memory.
-- The calls of time.Now and uuid.NewString are the arguments `now` and `uuid` of an operation.
pub mod Types
pub mod Defaults
pub mod Operations
