-- ===== src/Client/Frame.antt =====
-- What is sent to the XMPP side or to the server, and the channels of the client.
use biboumi.Base.{
  ℕ, Bool, true, false, not, ◌||◌, ◌&&◌, List, [], ◌∷◌, ◌≡◌, refl, ap, ◌∙◌, arith, Bytes,
  Bool-cases, inl, inr, codes,
}
use biboumi.Irc.Channel.{IrcChannel}
use biboumi.Irc.Iid.{Iid, to_tuple}
use biboumi.Irc.Message.{IrcMessage, serialize}
use biboumi.Irc.User.{IrcUser}
use biboumi.Utils.TokensBucket.{use_token}
use biboumi.Bridge.Resources.{resources_of_chan}
use biboumi.Bridge.Outgoing.{
  emit_all, leave_call, forget_chan, quit_if_unused, is_empty_list, send_muc_leave,
  send_nick_change, send_xmpp_message, send_xmpp_invitation, send_user_join, send_topic,
  kick_muc_user,
}
use biboumi.Client.Send.{
  mirror, run_callback, send_data, actual_send, send_irc_message, send_quit_command,
}
use biboumi.World.{
  MessageCallback, no_callback, mirror_to_all_resources, IrcClient, World, XmppCall, emit,
}

abbrev pub channels_of : World → List (Bytes × IrcChannel)
channels_of w = w.client.channels

pub client-emit_all :
    (call : Bytes → XmppCall) (resources : List Bytes) (w : World)
    → (emit_all call resources w).client ≡ w.client
unfolding emit_all
client-emit_all call [] w = refl
client-emit_all call (r ∷ rs) w = client-emit_all call rs (emit _ w)

pub client-mirror :
    (iid : Iid) (text : Bytes) (resources : List Bytes) (w : World)
    → (mirror iid text resources w).client ≡ w.client
unfolding mirror
client-mirror iid text [] w = refl
client-mirror iid text (r ∷ rs) w = client-mirror iid text rs (emit _ w)

pub client-run_callback :
    (callback : MessageCallback) (m : IrcMessage) (w : World)
    → (run_callback callback m w).client ≡ w.client
unfolding run_callback
client-run_callback no_callback m w = refl
client-run_callback (mirror_to_all_resources iid id) m w =
    client-mirror iid _ (resources_of_chan (to_tuple iid) w.bridge) w

channels-actual_send :
    (m : IrcMessage) (callback : MessageCallback) (w : World)
    → channels_of (actual_send m callback w) ≡ channels_of w
unfolding actual_send
channels-actual_send m callback w =
    ap (λ (c : IrcClient). c.channels) (client-run_callback callback m (send_data (serialize m) w))

pub channels-send_irc_message :
    (m : IrcMessage) (callback : MessageCallback) (throttle : Bool) (w : World)
    → channels_of (send_irc_message m callback throttle w) ≡ channels_of w
unfolding send_irc_message
channels-send_irc_message m callback throttle w =
    elim (Bool-cases ((use_token w.client.tokens_bucket).1 || not throttle)) [
      | inl now ↦ rw (now, send_irc_message) (channels-actual_send m callback _)
      | inr later ↦ rw (later, send_irc_message)
    ]

channels-quit_if_unused :
    (iid : Iid) (self : Bool) (w : World) → channels_of (quit_if_unused iid self w) ≡ channels_of w
unfolding quit_if_unused send_quit_command
channels-quit_if_unused iid self w = ground (
  arith,
  channels-send_irc_message (record { prefix = []; command = codes "QUIT"; arguments = [] ∷ [] })
      no_callback false w,
)

pub channels-send_muc_leave :
    (iid : Iid) (user : IrcUser) (message : Bytes) (self user_requested : Bool) (w : World)
    → channels_of (send_muc_leave iid user message self user_requested w) ≡ channels_of w
unfolding send_muc_leave forget_chan
channels-send_muc_leave iid user message true r w =
    let told =
      emit_all (leave_call w iid user message true r) (resources_of_chan (to_tuple iid) w.bridge)
        w in
    channels-quit_if_unused iid true (forget_chan iid told)
    ∙ ap (λ (c : IrcClient). c.channels) (client-emit_all _ _ w)
channels-send_muc_leave iid user message false r w =
    let told =
      emit_all (leave_call w iid user message false r) (resources_of_chan (to_tuple iid) w.bridge)
        w in
    channels-quit_if_unused iid false told
    ∙ ap (λ (c : IrcClient). c.channels) (client-emit_all _ _ w)

module _ (w : World) where
  pub channels-send_nick_change :
      (iid : Iid) (old new : Bytes) (mode : ℕ) (self : Bool)
      → channels_of (send_nick_change iid old new mode self w) ≡ channels_of w
  unfolding send_nick_change
  channels-send_nick_change iid old new mode self =
      ap (λ (c : IrcClient). c.channels) (client-emit_all _ _ w)

  pub channels-kick_muc_user :
      (iid : Iid) (target reason author : Bytes) (self : Bool)
      → channels_of (kick_muc_user iid target reason author self w) ≡ channels_of w
  unfolding kick_muc_user
  channels-kick_muc_user iid target reason author self =
      ap (λ (c : IrcClient). c.channels) (client-emit_all _ _ w)

  pub channels-send_topic :
      (hostname chan_name topic who : Bytes)
      → channels_of (send_topic hostname chan_name topic who w) ≡ channels_of w
  unfolding send_topic
  channels-send_topic hostname chan_name topic who =
      ap (λ (c : IrcClient). c.channels) (client-emit_all _ _ w)

  pub channels-send_xmpp_message :
      (from author msg : Bytes) → channels_of (send_xmpp_message from author msg w) ≡ channels_of w
  unfolding send_xmpp_message
  channels-send_xmpp_message from author msg =
      ap (λ (c : IrcClient). c.channels) (client-emit_all _ _ w)

  pub channels-send_xmpp_invitation :
      (iid : Iid) (author : Bytes) → channels_of (send_xmpp_invitation iid author w) ≡ channels_of w
  unfolding send_xmpp_invitation
  channels-send_xmpp_invitation iid author =
      ap (λ (c : IrcClient). c.channels) (client-emit_all _ _ w)

  pub channels-send_user_join :
      (hostname chan_name : Bytes) (user : IrcUser) (mode : ℕ) (self : Bool)
      → channels_of (send_user_join hostname chan_name user mode self w) ≡ channels_of w
  unfolding send_user_join
  channels-send_user_join hostname chan_name user mode self =
      elim (Bool-cases (self && is_empty_list (resources_of_chan (chan_name, hostname) w.bridge))) [
        | inl forced ↦ rw (forced, send_user_join) (channels-send_xmpp_invitation _ [])
        | inr asked ↦
            rw (asked, send_user_join) (ap (λ (c : IrcClient). c.channels) (client-emit_all _ _ w))
      ]
