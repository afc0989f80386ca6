-- ===== src/Client/Errors/Owned.antt =====
-- The handlers that report errors and the ownership of the channels.
use biboumi.Base.{true, List, [], ◌∷◌, Bytes, codes, leb, length}
use biboumi.Irc.Channel.{IrcChannel}
use biboumi.Irc.Message.{IrcMessage}
use biboumi.Bridge.Outgoing.{send_nickname_conflict_error, send_presence_error}
use biboumi.Client.Send.{command}
use biboumi.Client.Frame.{channels-send_irc_message, channels-send_xmpp_invitation}
use biboumi.Client.Membership.Owned.{Owned, Keeps, Keeps-arg, Keeps-if, frame-Owned}
use biboumi.Client.Texts.{send_gateway_message}
use biboumi.Client.Texts.Owned.{emit_all-Owned, send_xmpp_message-Owned}
use biboumi.Client.Errors.{
  on_own_host_received, on_erroneous_nickname, on_generic_error, conflict_in, on_nickname_conflict,
  too_fast_in, on_nickname_change_too_fast, on_useronchannel, on_channel_bad_key, on_invite,
  on_user_mode, send_pong_command, on_unknown_message,
}
use biboumi.World.{no_callback, World, Outcome, ok, thrown, fault, ◌>>=◌}

pub Keeps-then :
    (a : Outcome World) (f : World → Outcome World)
    → Keeps Owned a
    → ((w : World) → Owned w → Keeps Owned (f w))
    → Keeps Owned (a >>= f)
Keeps-then (ok w) f h k = k w h
Keeps-then (thrown w) f h k = h
Keeps-then (fault e) f h k = tt

pub send_gateway_message-Owned :
    (text from : Bytes) (w : World) → Owned w → Owned (send_gateway_message text from w)
unfolding send_gateway_message
send_gateway_message-Owned text from w o = send_xmpp_message-Owned _ from text w o

pub on_own_host_received-Owned :
    (m : IrcMessage) (w : World) → Owned w → Keeps Owned (on_own_host_received m w)
unfolding on_own_host_received
on_own_host_received-Owned m w o =
    Keeps-arg Owned m 1 _ λ own_host. send_xmpp_message-Owned _ _ _ _ (record { all = o.all })

pub on_erroneous_nickname-Owned :
    (m : IrcMessage) (w : World) → Owned w → Keeps Owned (on_erroneous_nickname m w)
unfolding on_erroneous_nickname
on_erroneous_nickname-Owned m w o =
    Keeps-arg Owned m 1 _ λ nick. send_gateway_message-Owned _ m.prefix w o

pub on_generic_error-Owned :
    (m : IrcMessage) (w : World) → Owned w → Keeps Owned (on_generic_error m w)
unfolding on_generic_error
on_generic_error-Owned m w o =
    Keeps-arg Owned m 1 _ λ what. send_gateway_message-Owned _ m.prefix w o

conflict_in-Owned :
    (nickname : Bytes) (channels : List (Bytes × IrcChannel)) (w : World)
    → Owned w
    → Owned (conflict_in nickname channels w)
unfolding conflict_in send_nickname_conflict_error
conflict_in-Owned nickname [] w o = o
conflict_in-Owned nickname ((name, _) ∷ channels) w o =
    conflict_in-Owned nickname channels _ (emit_all-Owned _ _ w o)

pub on_nickname_conflict-Owned :
    (m : IrcMessage) (w : World) → Owned w → Keeps Owned (on_nickname_conflict m w)
unfolding on_nickname_conflict
on_nickname_conflict-Owned m w o = Keeps-arg Owned m 1 _ λ nickname.
    Keeps-then (on_generic_error m w) _ (on_generic_error-Owned m w o)
      λ w' o'. conflict_in-Owned nickname w'.client.channels w' o'

too_fast_in-Owned :
    (nickname txt : Bytes) (channels : List (Bytes × IrcChannel)) (w : World)
    → Owned w
    → Owned (too_fast_in nickname txt channels w)
unfolding too_fast_in send_presence_error
too_fast_in-Owned nickname txt [] w o = o
too_fast_in-Owned nickname txt ((name, _) ∷ channels) w o =
    too_fast_in-Owned nickname txt channels _ (record { all = o.all })

pub on_nickname_change_too_fast-Owned :
    (m : IrcMessage) (w : World) → Owned w → Keeps Owned (on_nickname_change_too_fast m w)
unfolding on_nickname_change_too_fast
on_nickname_change_too_fast-Owned m w o = Keeps-arg Owned m 1 _ λ nickname.
    Keeps-then (on_generic_error m w) _ (on_generic_error-Owned m w o)
      λ w' o'. too_fast_in-Owned nickname _ w'.client.channels w' o'

pub on_useronchannel-Owned :
    (m : IrcMessage) (w : World) → Owned w → Keeps Owned (on_useronchannel m w)
unfolding on_useronchannel
on_useronchannel-Owned m w o = Keeps-arg Owned m 1 _ λ nick.
    Keeps-arg Owned m 3 _ λ text. Keeps-arg Owned m 2 _ λ chan. send_gateway_message-Owned _ [] w o

pub on_channel_bad_key-Owned :
    (m : IrcMessage) (w : World) → Owned w → Keeps Owned (on_channel_bad_key m w)
unfolding on_channel_bad_key send_presence_error
on_channel_bad_key-Owned m w o =
    Keeps-then (on_generic_error m w) _ (on_generic_error-Owned m w o) λ w' o'.
      Keeps-arg Owned m 0 _ λ nickname. Keeps-arg Owned m 1 _ λ chan. record { all = o'.all }

pub on_invite-Owned : (m : IrcMessage) (w : World) → Owned w → Keeps Owned (on_invite m w)
unfolding on_invite
on_invite-Owned m w o =
    Keeps-arg Owned m 1 _ λ chan. frame-Owned w _ (channels-send_xmpp_invitation w _ _) o

pub on_user_mode-Owned : (m : IrcMessage) (w : World) → Owned w → Keeps Owned (on_user_mode m w)
unfolding on_user_mode
on_user_mode-Owned m w o =
    Keeps-arg Owned m 0 _ λ target. Keeps-arg Owned m 1 _ λ modes. send_xmpp_message-Owned _ _ _ w o

pub send_pong_command-Owned :
    (m : IrcMessage) (w : World) → Owned w → Keeps Owned (send_pong_command m w)
unfolding send_pong_command
send_pong_command-Owned m w o = Keeps-arg Owned m 0 _ λ id.
    frame-Owned w _
      (channels-send_irc_message (command (codes "PONG") (id ∷ [])) no_callback true w) o

pub on_unknown_message-Owned :
    (m : IrcMessage) (w : World) → Owned w → Keeps Owned (on_unknown_message m w)
unfolding on_unknown_message
on_unknown_message-Owned m w o =
    Keeps-if (leb 2 (length m.arguments)) _ _ (send_xmpp_message-Owned _ _ _ w o) o
