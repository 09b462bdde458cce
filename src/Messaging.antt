-- ===== src/Messaging.antt =====
-- openleadr/messaging.py: who sent a message, and whether it was seen before.
pub mod Replay
pub mod Signature
pub mod Authenticate
