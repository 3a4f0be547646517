-- ===== src/Chat.antt =====
-- internal/server/chat.go: what a chat completion is made of, in one piece (Output) and as a stream
-- (Stream, Event), from the response of the upstream service.
pub mod Types
pub mod Output
pub mod Stream
pub mod Event
pub mod Sent
pub mod Heads
pub mod Announcing
pub mod Steady
pub mod Matched
pub mod Reconciling
pub mod Finishing
pub mod Streamed
pub mod Tools
pub mod Finding
pub mod Methods
pub mod Arguments
pub mod Reconciled
pub mod Kept
pub mod Frozen
pub mod Called
pub mod Complete
pub mod Valid
pub mod Handled
pub mod Announced
pub mod Delivered
pub mod Terminal
pub mod Run
pub mod Tests
