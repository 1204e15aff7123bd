-- ===== src/Chat.antt =====
-- internal/chat/service.go: servers, channels, messages and attachments, held in memory.
-- A map is an association list; the iteration order of Go's maps reaches no result here but the
-- index of the channels, whose keys are distinct. The calls of time.Now and uuid.NewString are the
-- arguments `now` and `ids` of an operation: `ids n` is what the call number n returns.
pub mod Types
pub mod Attachments
pub mod Preview
pub mod Directory
pub mod Messages
pub mod Seed
pub mod Sending
pub mod Tests
