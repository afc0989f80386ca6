-- ===== src/Bridge.antt =====
-- src/bridge/bridge.cpp: which XMPP resources are in which channel and server, and what is sent to
-- them.
pub mod Resources
pub mod Roles
pub mod Outgoing
pub mod ChannelList
pub mod Waiting
pub mod Requests
pub mod Colors
