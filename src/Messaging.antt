-- ===== src/Messaging.antt =====
-- messaging: what all chats share.
pub mod Limiter
