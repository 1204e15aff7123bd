-- ===== src/Realtime.antt =====
-- internal/realtime: who is connected, who is subscribed to which channel, and who is told what.
pub mod Hub
pub mod Events
pub mod Tests
