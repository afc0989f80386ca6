-- ===== src/Client/Texts.antt =====
-- The handlers of src/irc/irc_client.cpp that forward texts: server messages, notices, messages,
-- the message of the day, topics, bans and errors.
pub mod Owned
use biboumi.Base.{
  ℕ, ◌-◌, Bool, true, false, not, ◌&&◌, Option, none, some, List, [], ◌∷◌, ◌++◌, ltb, ◌==◌,
  if◌then◌else◌, Bytes, codes, has_char, starts_with, cut_at, length, get_elem?, take, drop,
  contains,
}
use biboumi.Irc.Iid.{Iid, user, set_local, channel_iid}
use biboumi.Irc.Message.{IrcMessage}
use biboumi.Irc.User.{nick_of, make_user}
use biboumi.Utils.Strings.{tolower}
use biboumi.Bridge.Outgoing.{
  send_xmpp_message, send_bridge_message, send_xmpp_ping_request, send_iq_version_request,
  send_topic,
}
use biboumi.Client.Channels.{get_channel, put_channel}
use biboumi.Client.Send.{last_is}
use biboumi.World.{World, Outcome, ok, ◌>>=◌, arg, with_client}

abbrev pub Handler : Type 0
Handler = IrcMessage → World → Outcome World

abbrev pub skip : Handler
skip m w = ok w

abbrev spaced : List Bytes → Bytes
spaced [] = []
spaced (a ∷ args) = a ++ (b' ' ∷ spaced args)

-- `std::next` of the first argument: the table asks for two arguments where this is called, or the
-- caller has them.
unfoldable pub forward_server_message : Handler
forward_server_message m w =
    ok (send_xmpp_message w.client.hostname m.prefix (spaced (drop 1 m.arguments)) w)

unfoldable pub send_gateway_message : Bytes → Bytes → World → World
send_gateway_message message from w = send_xmpp_message w.client.hostname from message w

-- A text whose first byte is \01 is a CTCP command.
abbrev is_ctcp : Bytes → Bool
is_ctcp [] = false
is_ctcp (c ∷ body) = c == 1

unfoldable pub forward_body : Iid → Bytes → Bytes → Bool → World → World
forward_body iid nick body muc w =
    if is_ctcp body
    then (if starts_with (codes "ACTION") (drop 1 body)
        then send_bridge_message iid nick (codes "/me" ++ take (length body - 8) (drop 7 body)) muc
            w
        else if starts_with (codes "VERSION\u{1}") (drop 1 body)
        then send_iq_version_request nick w.client.hostname w
        else if starts_with (codes "PING ") (drop 1 body)
        then send_xmpp_ping_request (tolower nick) w.client.hostname
            (take (length body - 7) (drop 6 body)) w
        else w)
    else send_bridge_message iid nick body muc w

-- A message to a channel that is not joined comes from the user who sent it.
unfoldable pub deliver_message : Bytes → Bytes → Bytes → World → World
deliver_message target prefix body w =
    let iid = channel_iid target w.client.hostname in
    let (chan, w') = get_channel iid.local w in
    if chan.joined
    then forward_body iid (nick_of prefix) body true w'
    else forward_body (record (set_local (nick_of prefix) iid) { type = user }) (nick_of prefix)
        body false w'

unfoldable pub on_channel_message : Handler
on_channel_message m w = do
  target ← arg m 0
  body ← arg m 1
  ok (deliver_message target m.prefix body w)

-- A notice that starts with `[#channel]` goes to that channel.
unfoldable pub notice_target : Bytes → Bytes → List ℕ → Bytes
notice_target to [] chantypes = to
notice_target to (c ∷ []) chantypes = to
notice_target to (c ∷ chan_prefix ∷ body) chantypes =
    if ltb 3 (length (c ∷ chan_prefix ∷ body)) && c == b'[' && has_char chan_prefix chantypes
    then elim (cut_at b']' (chan_prefix ∷ body)) [ none ↦ to | some (chan, rest) ↦ chan ]
    else to

abbrev is_for_us : Bytes → List ℕ → Bool
is_for_us [] chantypes = false
is_for_us (c ∷ to) chantypes = not (has_char c chantypes)

unfoldable pub deliver_notice : Bytes → Bytes → Bytes → World → World
unfolding notice_target
deliver_notice to from body w =
    let nick = tolower (nick_of from) in
    if is_ctcp body && last_is 1 body
    then w
    else if is_for_us to w.client.chantypes
    then (if contains nick w.client.nicks_to_treat_as_private
        then send_bridge_message
            (record { local = nick; server_name = w.client.hostname; type = user }) nick body false
            w
        else send_xmpp_message w.client.hostname from body w)
    else deliver_message to from (codes "\u{3}03[notice]\u{3} " ++ body) w

unfoldable pub on_notice : Handler
unfolding deliver_notice
on_notice m w = do
  to ← arg m 0
  body ← arg m 1
  ok (deliver_notice (notice_target to body w.client.chantypes) m.prefix body w)

unfoldable pub on_invited : Handler
on_invited m w = do
  chan_name ← arg m 2
  invited_nick ← arg m 1
  ok (
      send_xmpp_message w.client.hostname []
        (invited_nick ++ (codes " has been invited to " ++ chan_name)) w)

unfoldable pub empty_motd : Handler
empty_motd m w = ok (with_client (λ c. record c { motd = [] }) w)

unfoldable pub on_motd_line : Handler
on_motd_line m w = do
  body ← arg m 1
  ok (with_client (λ c. record c { motd = c.motd ++ (body ++ (b'\n' ∷ [])) }) w)

unfoldable pub send_motd : Handler
send_motd m w = ok (send_xmpp_message w.client.hostname [] w.client.motd w)

unfoldable pub on_empty_topic : Handler
on_empty_topic m w = do
  name ← arg m 1
  let (chan, w') = get_channel (tolower name) w
  ok (put_channel (tolower (tolower name)) (record chan { topic = [] }) w')

-- The channel and the topic are the last two arguments.
unfoldable pub on_topic_received : Handler
on_topic_received m w = do
  name ← arg m (length m.arguments - 2)
  topic ← arg m (length m.arguments - 1)
  let (chan, w') = get_channel (tolower name) w
  let w'' =
      put_channel (tolower (tolower name))
        (record chan { topic = topic; topic_author = nick_of m.prefix }) w'
  ok (
      if chan.joined
      then send_topic w.client.hostname (tolower name) topic (nick_of m.prefix) w''
      else w'')

unfoldable pub on_topic_who_time_received : Handler
on_topic_who_time_received m w = do
  author ← arg m 2
  name ← arg m 1
  let (chan, w') = get_channel (tolower name) w
  ok (put_channel (tolower (tolower name)) (record chan { topic_author = nick_of author }) w')

abbrev pub optional : Bytes → Option Bytes → Bytes
optional default none = default
optional default (some text) = text

abbrev with_suffix : Bytes → Option Bytes → Bytes
with_suffix before none = []
with_suffix before (some text) = before ++ text

abbrev ban_author : World → Option Bytes → Option Bytes
ban_author w none = none
ban_author w (some by) = some (make_user 0 by w.client.prefix_to_mode).nick

unfoldable pub on_banlist : Handler
on_banlist m w = do
  name ← arg m 1
  mask ← arg m 2
  let (chan, w') = get_channel (tolower name) w
  let body =
      mask
      ++ (codes " banned"
          ++ (with_suffix (codes " by ") (ban_author w (get_elem? m.arguments 3))
              ++ with_suffix (codes " on ") (get_elem? m.arguments 4)))
  ok (
      if chan.joined
      then send_bridge_message (channel_iid (tolower name) w.client.hostname) [] body true w'
      else w')

unfoldable pub on_banlist_end : Handler
on_banlist_end m w = do
  name ← arg m 1
  text ← arg m 2
  let (chan, w') = get_channel (tolower name) w
  ok (
      if chan.joined
      then send_bridge_message (channel_iid (tolower name) w.client.hostname) [] text true w'
      else w')
