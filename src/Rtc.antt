-- ===== src/Rtc.antt =====
-- internal/rtc: join tickets, and the rooms of the signaling service.
pub mod Types
pub mod Tokens
pub mod Rooms
pub mod Joining
pub mod Signaling
pub mod Events
pub mod Reader
