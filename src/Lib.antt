-- ===== src/Lib.antt =====
-- Verification of the OpenChat backend: chat, profiles, realtime events, RTC calls and the HTTP API.
--
-- The server keeps all its state in memory. The chat service (internal/chat/service.go) holds the
-- servers, their channels and members, the messages and the attachments; the profile service
-- (internal/profile/service.go) holds the users' profiles and avatars; the token service
-- (internal/rtc/token_service.go) issues and consumes the tickets with which a client joins a voice
-- channel. The HTTP handlers call the three services. Both the chat and the profile service hand
-- what they saved to a broadcaster, the realtime hub.
--
-- Each service is a record of the fields of its Go struct. An operation that changes the state takes
-- the service and returns the service that it leaves with what it returns; one that calls a
-- broadcaster returns that call too, in a record `Outcome`. The locks are not modelled: an
-- operation of the chat service, the profile service, the token service, the hub or the rooms holds
-- its lock from its first access of a field that changes to its last, and calls the broadcaster after
-- that, so an interleaving of calls is a list of calls (`Call`, `step` and `run` in the modules
-- History). Two operations of a signaling client take locks one after the other and are one step of the
-- model all the same: the first message (Events.first_message) takes the lock of the tokens, of the
-- rooms, and of the rooms again, with a message put into a queue before the last, and closeConnection
-- unregisters and broadcasts under separate locks. What other clients do between these is not covered.
-- ParseAndConsume reads the clock before it takes its lock, so a history in which the clock does not go
-- back is one in which the calls take the lock in the order of their clock readings. The calls of time.Now
-- and uuid.NewString are arguments of an operation. An operation returns a value of Go, or one of the
-- errors of the file by name; the texts of the errors are not modelled.
--
--   * Base: bytes, texts, numbers, lists, results and maps. A text is the list of its bytes, a Go map
--     is an association list.
--   * Utf8, Strings: what the program uses of unicode/utf8, strings, sort and path/filepath.
--   * Platform: what the program takes from unicode, regexp, image, net/http and time, as parameters.
--   * Chat: internal/chat/service.go. Types has its types, Directory the servers, the channels and
--     LeaveServer, Messages has CreateMessage and ListMessages, Attachments what becomes of an upload,
--     Preview buildReplyPreviewText, Seed NewService and the data it starts with. Sending and the
--     modules below Directory, Messages and Preview are proofs.
--   * Rtc: Types is internal/rtc/types.go without the envelope, Tokens is
--     internal/rtc/token_service.go. Crypto, base64 and JSON are the parameter `Codec`. The other files
--     are internal/rtc/signaling_service.go: Rooms is roomHub, who takes part in which call, and whom an
--     envelope reaches. Joining is waitForJoin, which composes the two. Signaling has the clients
--     with their queues of 64 messages, enqueue and closeConnection; a client object is named by its
--     id. Events has handleEnvelope and the handlers it calls, Reader the steps of readPump and
--     writePump. A send on a closed queue, which panics in Go, is the result `none`; the HTTP server
--     recovers from it after the deferred closeConnection. Joining alone says whom waitForJoin
--     notifies; Events.first_message puts the messages into their queues.
--   * Profile: internal/profile/service.go. Types has its types, Defaults the profile that a user
--     starts with and the helpers on strings, Operations the operations; the modules below it are proofs.
--   * Realtime: internal/realtime/chat_hub.go. Hub has the clients, the rooms and the subscriptions with
--     register, unregister, subscribe, unsubscribe and typingPeers, Events has handleEnvelope and close.
--     The subscriptions of a client object stand in the hub, under the id of the client. Reading JSON is
--     the parameter `PayloadReader`; a payload that is sent is a constructor with its fields.
--   * App: internal/app. Config is config.go, with net/url as the parameter `UrlPackage`, BuildInfo is
--     buildinfo.go.
--   * Capabilities: internal/capabilities/service.go. Types has its types, Build the answer.
--   * Api: internal/api. Types has the server and the answers, Requester middleware_auth.go, Channels
--     handlers_channels.go and handlers_servers.go, Profiles handlers_profile.go, Tickets
--     handlers_rtc.go and handlers_capabilities.go, Router router.go. A request is a constructor for
--     each route; the handlers compose the services below.
--   * Strconv: what the program uses of strconv, with decimal digits of at most 19 places.
--
-- All loops are structural recursion over lists, so no fuel is used, but for the 19 digits of a
-- printed `int`, which no `int` exceeds. An `int` that the program only compares or adds small numbers
-- to is an unbounded integer; the version of a profile and the time to live of the configuration wrap
-- as an `int` of 64 bits does.
--
-- Not modelled: the websocket connections with their deadlines and pings, relayToRoom, which nothing
-- calls, the bounded queues of the realtime hub, the matching of paths, the headers of answers, and the
-- commands (cmd), which are input and output or stand above the services.
pub mod Api
pub mod App
pub mod Base
pub mod Capabilities
pub mod Chat
pub mod Platform
pub mod Profile
pub mod Realtime
pub mod Rtc
pub mod Strconv
pub mod Strings
pub mod Utf8
