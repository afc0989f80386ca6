-- ===== src/Client.antt =====
-- src/irc/irc_client.cpp: what is sent to the IRC server, and the handlers of its messages.
pub mod Send
pub mod Channels
pub mod Texts
pub mod Errors
pub mod Membership
pub mod Frame
pub mod Modes
pub mod Join
pub mod Messages
pub mod Dispatch
