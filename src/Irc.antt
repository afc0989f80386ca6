-- ===== src/Irc.antt =====
-- The IRC side, src/irc: messages, users, channels and names.
pub mod Message
pub mod User
pub mod Channel
pub mod Iid
