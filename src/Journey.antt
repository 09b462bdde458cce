-- ===== src/Journey.antt =====
-- The way of an event through both sides: from `OpenADRServer.add_raw_event` over a poll to the
-- client's handler, and the answer back to the callback that the server's user gave.
pub mod Sent
pub mod Served
pub mod Answered
pub mod Registered
