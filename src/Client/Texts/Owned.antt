-- ===== src/Client/Texts/Owned.antt =====
-- The handlers that forward texts and the ownership of the channels.
use biboumi.Base.{
  Bool, true, false, List, [], ◌∷◌, ◌≡◌, ap, arith, Bytes, codes, ◌&&◌, starts_with, length,
  contains, ◌==◌, ◌-◌,
}
use biboumi.Irc.Channel.{IrcChannel}
use biboumi.Irc.Channel.Ownership.{IsOwned}
use biboumi.Irc.Iid.{Iid, channel_iid}
use biboumi.Irc.Message.{IrcMessage}
use biboumi.Irc.User.{nick_of}
use biboumi.Utils.Strings.{tolower}
use biboumi.Bridge.Outgoing.{
  emit_all, send_bridge_message, send_xmpp_message, send_iq_version_request, send_xmpp_ping_request,
}
use biboumi.Client.Channels.{get_channel}
use biboumi.Client.Frame.{
  client-emit_all, channels_of, channels-send_xmpp_message, channels-send_topic,
}
use biboumi.Client.Send.{last_is}
use biboumi.Client.Membership.Owned.{
  Owned, Keeps, Keeps-arg, Owned-if, frame-Owned, get_channel-Owned, put_channel-Owned,
}
use biboumi.Client.Texts.{
  is_ctcp, is_for_us, forward_server_message, forward_body, deliver_message, on_channel_message,
  deliver_notice, on_notice, on_invited, empty_motd, on_motd_line, send_motd, on_empty_topic,
  on_topic_received, on_topic_who_time_received, on_banlist, on_banlist_end,
}
use biboumi.World.{IrcClient, XmppCall, World}

pub emit_all-Owned :
    (call : Bytes → XmppCall) (resources : List Bytes) (w : World)
    → Owned w
    → Owned (emit_all call resources w)
emit_all-Owned call resources w o =
    frame-Owned w _ (ap (λ (c : IrcClient). c.channels) (client-emit_all call resources w)) o

pub send_bridge_message-Owned :
    (iid : Iid) (nick body : Bytes) (muc : Bool) (w : World)
    → Owned w
    → Owned (send_bridge_message iid nick body muc w)
unfolding send_bridge_message
send_bridge_message-Owned iid nick body true w o = emit_all-Owned _ _ w o
send_bridge_message-Owned iid nick body false w o = record { all = o.all }

pub send_xmpp_message-Owned :
    (from author msg : Bytes) (w : World) → Owned w → Owned (send_xmpp_message from author msg w)
send_xmpp_message-Owned from author msg w o =
    frame-Owned w _ (channels-send_xmpp_message w from author msg) o

channels-first_request :
    (nick hostname id : Bytes) (w : World)
    → (channels_of (send_iq_version_request nick hostname w) ≡ channels_of w)
      × (channels_of (send_xmpp_ping_request nick hostname id w) ≡ channels_of w)
unfolding send_iq_version_request send_xmpp_ping_request
channels-first_request nick hostname id w = (ground arith, ground arith)

forward_body-Owned :
    (iid : Iid) (nick body : Bytes) (muc : Bool) (w : World)
    → Owned w
    → Owned (forward_body iid nick body muc w)
unfolding forward_body
forward_body-Owned iid nick [] muc w o = send_bridge_message-Owned iid nick [] muc w o
forward_body-Owned iid nick (c ∷ body) muc w o =
    Owned-if (c == 1)
      (Owned-if (starts_with (codes "ACTION") body) (send_bridge_message-Owned iid nick _ muc w o) (
        Owned-if (starts_with (codes "VERSION\u{1}") body)
          (frame-Owned w _ (channels-first_request nick _ [] w).0 o)
          (Owned-if (starts_with (codes "PING ") body)
            (frame-Owned w _ (channels-first_request (tolower nick) _ _ w).1 o) o)))
      (send_bridge_message-Owned iid nick (c ∷ body) muc w o)

deliver_message-Owned :
    (target prefix body : Bytes) (w : World)
    → Owned w
    → Owned (deliver_message target prefix body w)
unfolding deliver_message
deliver_message-Owned target prefix body w o =
    let (h, o') = get_channel-Owned (channel_iid target w.client.hostname).local w o in
    let (chan, w') = get_channel (channel_iid target w.client.hostname).local w in
    Owned-if chan.joined (forward_body-Owned _ _ body true w' o')
      (forward_body-Owned _ _ body false w' o')

pub on_channel_message-Owned :
    (m : IrcMessage) (w : World) → Owned w → Keeps Owned (on_channel_message m w)
unfolding on_channel_message
on_channel_message-Owned m w o =
    Keeps-arg Owned m 0 _
      λ target. Keeps-arg Owned m 1 _ λ body. deliver_message-Owned target m.prefix body w o

deliver_notice-Owned :
    (to from body : Bytes) (w : World) → Owned w → Owned (deliver_notice to from body w)
unfolding deliver_notice
deliver_notice-Owned to from body w o = Owned-if (is_ctcp body && last_is 1 body) o (
    Owned-if (is_for_us to w.client.chantypes)
      (Owned-if (contains (tolower (nick_of from)) w.client.nicks_to_treat_as_private)
        (send_bridge_message-Owned _ _ body false w o)
        (send_xmpp_message-Owned w.client.hostname from body w o))
      (deliver_message-Owned to from _ w o))

pub on_notice-Owned : (m : IrcMessage) (w : World) → Owned w → Keeps Owned (on_notice m w)
unfolding on_notice
on_notice-Owned m w o =
    Keeps-arg Owned m 0 _
      λ to. Keeps-arg Owned m 1 _ λ body. deliver_notice-Owned _ m.prefix body w o

-- The topic and its author are no part of what is owned.
topic-IsOwned :
    (topic author : Bytes) (chan : IrcChannel)
    → IsOwned chan
    → IsOwned (record chan { topic = topic; topic_author = author })
topic-IsOwned topic author chan h = record {
  fresh = h.fresh;
  distinct = h.distinct;
  self_owned = h.self_owned;
  has_self = h.has_self;
}

pub on_empty_topic-Owned : (m : IrcMessage) (w : World) → Owned w → Keeps Owned (on_empty_topic m w)
unfolding on_empty_topic
on_empty_topic-Owned m w o = Keeps-arg Owned m 1 _ λ name.
    let (h, o') = get_channel-Owned (tolower name) w o in
    let (chan, w') = get_channel (tolower name) w in
    put_channel-Owned (tolower (tolower name)) _ w' (topic-IsOwned [] chan.topic_author chan h) o'

pub on_topic_who_time_received-Owned :
    (m : IrcMessage) (w : World) → Owned w → Keeps Owned (on_topic_who_time_received m w)
unfolding on_topic_who_time_received
on_topic_who_time_received-Owned m w o = Keeps-arg Owned m 2 _ λ author.
    Keeps-arg Owned m 1 _ λ name.
      let (h, o') = get_channel-Owned (tolower name) w o in
      let (chan, w') = get_channel (tolower name) w in
      put_channel-Owned (tolower (tolower name)) _ w'
        (topic-IsOwned chan.topic (nick_of author) chan h) o'

pub on_topic_received-Owned :
    (m : IrcMessage) (w : World) → Owned w → Keeps Owned (on_topic_received m w)
unfolding on_topic_received
on_topic_received-Owned m w o = Keeps-arg Owned m (length m.arguments - 2) _ λ name.
    Keeps-arg Owned m (length m.arguments - 1) _ λ topic.
      let (h, o') = get_channel-Owned (tolower name) w o in
      let (chan, w') = get_channel (tolower name) w in
      let kept =
        put_channel-Owned (tolower (tolower name)) _ w'
          (topic-IsOwned topic (nick_of m.prefix) chan h) o' in
      Owned-if chan.joined (frame-Owned _ _ (channels-send_topic _ _ _ _ _) kept) kept

pub on_banlist-Owned : (m : IrcMessage) (w : World) → Owned w → Keeps Owned (on_banlist m w)
unfolding on_banlist
on_banlist-Owned m w o = Keeps-arg Owned m 1 _ λ name. Keeps-arg Owned m 2 _ λ mask.
    let (h, o') = get_channel-Owned (tolower name) w o in
    let (chan, w') = get_channel (tolower name) w in
    Owned-if chan.joined (send_bridge_message-Owned _ [] _ true w' o') o'

pub on_banlist_end-Owned : (m : IrcMessage) (w : World) → Owned w → Keeps Owned (on_banlist_end m w)
unfolding on_banlist_end
on_banlist_end-Owned m w o = Keeps-arg Owned m 1 _ λ name. Keeps-arg Owned m 2 _ λ text.
    let (h, o') = get_channel-Owned (tolower name) w o in
    let (chan, w') = get_channel (tolower name) w in
    Owned-if chan.joined (send_bridge_message-Owned _ [] _ true w' o') o'

pub on_invited-Owned : (m : IrcMessage) (w : World) → Owned w → Keeps Owned (on_invited m w)
unfolding on_invited
on_invited-Owned m w o =
    Keeps-arg Owned m 2 _
      λ chan_name. Keeps-arg Owned m 1 _ λ nick. send_xmpp_message-Owned _ _ _ w o

pub on_motd_line-Owned : (m : IrcMessage) (w : World) → Owned w → Keeps Owned (on_motd_line m w)
unfolding on_motd_line
on_motd_line-Owned m w o = Keeps-arg Owned m 1 _ λ body. record { all = o.all }

pub empty_motd-Owned : (m : IrcMessage) (w : World) → Owned w → Keeps Owned (empty_motd m w)
unfolding empty_motd
empty_motd-Owned m w o = record { all = o.all }

pub send_motd-Owned : (m : IrcMessage) (w : World) → Owned w → Keeps Owned (send_motd m w)
unfolding send_motd
send_motd-Owned m w o = send_xmpp_message-Owned _ _ _ w o

pub forward_server_message-Owned :
    (m : IrcMessage) (w : World) → Owned w → Keeps Owned (forward_server_message m w)
unfolding forward_server_message
forward_server_message-Owned m w o = send_xmpp_message-Owned _ _ _ w o
