-- ===== src/Xmpp.antt =====
-- src/xmpp: the tree of a stanza, the parser of the stream, the addresses, the ad-hoc commands, and
-- the stanzas that the component builds.
pub mod Adhoc
pub mod Component
pub mod Jid
pub mod Node
pub mod Parser
