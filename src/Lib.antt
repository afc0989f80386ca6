-- ===== src/Lib.antt =====
-- biboumi, an XMPP gateway to IRC: what it does with the messages of an IRC server, and with the
-- requests of its XMPP users.
--
-- The bytes that arrive from a server are cut into lines, each line is read into an `IrcMessage`
-- and given to the handler of its command. A handler changes the state of the `IrcClient` of that
-- server (its channels, their users, its modes), sends messages to the server through a bucket of
-- tokens, and tells the `Bridge` of the user, which sends stanzas to every XMPP resource that is in
-- the channel. On the other side the events of an XML parser become stanzas; a request of a user
-- goes to the bridge, which sends commands to the server, and for some requests keeps a closure that
-- looks at each later message until it is the answer. An ad-hoc command is a session of steps with a
-- timer. Both sides write to the buffer of a socket.
--
--   Base        texts as lists of bytes, maps and sets as lists
--   Utils       src/utils: Strings (tolower, revstr, split, to_bool, cut), Encoding (UTF-8 checks,
--               XEP-0106), TimedEvents (the timers), TokensBucket
--   Config      src/config/config.cpp: the options, and the file in which they are kept
--   Network     src/network/tcp_socket_handler.cpp, without TLS: the buffers of a socket
--   Irc         src/irc: Message, User, Channel, Iid
--   World       the state that a message reaches: one `IrcClient` and the `Bridge` of its user, with
--               what was sent to the server and what was asked of the XMPP component
--   Bridge      src/bridge: Resources (which resources are in which channel), Roles, Outgoing (what
--               is sent to XMPP for each event), Colors (formats to XHTML), ChannelList (the pages of
--               a list), Waiting (the closures that wait for a message), Requests (what the XMPP
--               side asks for)
--   Client      src/irc/irc_client.cpp: Send (the commands and the delayed messages), Messages (what
--               is said in a channel, in lines that fit), Channels, Texts, Errors, Membership, Modes
--               and Join (the handlers), Dispatch (the table and the reading of the buffer); the
--               module below a part proves what it promises
--   Xmpp        src/xmpp: Node (xmpp_stanza.cpp), Parser (xmpp_parser.cpp), Jid (jid.cpp), Adhoc
--               (adhoc_command.cpp, adhoc_commands_handler.cpp, adhoc_session.cpp), Component (the
--               stanzas that xmpp_component.cpp builds, and its stream)
--   Tests       concrete inputs
--
-- A function of the source is a definition of the same name. A handler takes the message and the
-- state and gives an `Outcome`: the new state, the state in which an exception was thrown, or the
-- undefined behaviour that the code runs into (an index past the end, a null pointer). A pointer to
-- a user is the number of that user, and a channel holds the number that its next user gets. What
-- the XMPP component and the server get is kept as a list, in order.
--
-- Loops are recursion on the list they walk, or on a number of rounds: the length of the text for
-- `parse`, `cut`, the formats of a message and the buffer, where a round reads a byte at least; for
-- the timers the sum of the delays that the events are behind, which is what their theorem gives.
--
-- Parameters stand for what is not in src: the profiles of libidn and getaddrinfo in `jidprep`,
-- expat (the parser is given its events), the numbers that sendmsg and recv return, the clock, the
-- capacity of the vector of events, and the identifiers of the sessions.
--
-- The build is the one without database, without SASL and without Botan. The closures that wait for
-- a message (Bridge/Waiting) and the reading of the buffer (Client/Dispatch) are modelled apart: the
-- second runs where no closure waits. Not modelled are the stanzas that
-- src/xmpp/biboumi_component.cpp handles and builds (but for the answer with a list of rooms), the
-- forms of biboumi_adhoc_commands.cpp, the creation of a client by the bridge and its shutdown, the
-- database, identd, the poller, the names of hosts, TLS, the log, and the conversion of bodies by
-- iconv. A loop over the channels follows the order of a list, where the source has an unordered
-- map.
--
-- A channel is well owned when its users are different objects, when the pointer to oneself is null
-- or points to one of them, and when it is not null while the channel is joined.
pub mod Base
pub mod Utils
pub mod Config
pub mod Network
pub mod Irc
pub mod World
pub mod Bridge
pub mod Client
pub mod Xmpp
pub mod Tests
