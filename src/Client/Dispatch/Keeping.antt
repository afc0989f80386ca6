-- ===== src/Client/Dispatch/Keeping.antt =====
-- The handlers of the table `irc_callbacks` and the ownership of the channels.
use biboumi.Base.{ℕ, ◌≤◌, List, [], ◌∷◌, arith, Bytes, length, get_elem?-some, bytes_eq}
use biboumi.Irc.Message.{IrcMessage}
use biboumi.Client.Membership.Owned.{Owned, Leaves, Keeps}
use biboumi.Client.Membership.Owned.Steps.{
  on_channel_join-Owned, on_channel_completely_joined-Owned, on_part-Owned, on_kick-Owned,
  on_quit-Owned, on_error_total,
}
use biboumi.Client.Membership.{
  on_error, on_channel_join, on_channel_completely_joined, on_part, on_kick, on_quit, on_nick,
  set_and_forward_user_list,
}
use biboumi.Client.Errors.{
  on_channel_bad_key, on_erroneous_nickname, on_generic_error, on_invite,
  on_nickname_change_too_fast, on_nickname_conflict, on_own_host_received, on_useronchannel,
  send_pong_command,
}
use biboumi.Client.Join.{on_welcome_message, on_cap}
use biboumi.Client.Texts.Owned.{
  empty_motd-Owned, forward_server_message-Owned, on_banlist-Owned, on_banlist_end-Owned,
  on_channel_message-Owned, on_empty_topic-Owned, on_invited-Owned, on_motd_line-Owned,
  on_notice-Owned, on_topic_received-Owned, on_topic_who_time_received-Owned, send_motd-Owned,
}
use biboumi.Client.Join.Owned.{on_cap-Owned, on_welcome_message-Owned}
use biboumi.Client.Errors.Owned.{
  on_channel_bad_key-Owned, on_erroneous_nickname-Owned, on_generic_error-Owned, on_invite-Owned,
  on_nickname_change_too_fast-Owned, on_nickname_conflict-Owned, on_own_host_received-Owned,
  on_useronchannel-Owned, send_pong_command-Owned,
}
use biboumi.Client.Membership.Owned.Names.{on_nick-Owned, set_and_forward_user_list-Owned}
use biboumi.Client.Modes.{on_mode, on_isupport_message}
use biboumi.Client.Modes.Owned.{modes-Owned}
use biboumi.Client.Texts.{
  Handler, skip, empty_motd, forward_server_message, on_banlist, on_banlist_end, on_channel_message,
  on_empty_topic, on_invited, on_motd_line, on_notice, on_topic_received,
  on_topic_who_time_received, send_motd,
}
use biboumi.Client.Dispatch.{Callback, irc_callbacks}
use biboumi.World.{World, Outcome, ok, thrown, fault}

-- With the arguments that the table asks for, the handler leaves every channel well owned.
abbrev pub IsKeeping : Bytes × Callback → Type 0
IsKeeping (name, cb) =
    (m : IrcMessage) (w : World)
    → cb.min ≤ length m.arguments
    → Owned w
    → Keeps Owned (cb.handler m w)

infixr 5 ◌⨾◌
pub data AllKeeping : List (Bytes × Callback) → Type 0 where
  none_left : AllKeeping []
  ◌⨾◌ :
      {e : Bytes × Callback} {es : List (Bytes × Callback)}
      → IsKeeping e
      → AllKeeping es
      → AllKeeping (e ∷ es)

Leaves-Keeps : (P : World → Type 0) (o : Outcome World) → Leaves P o → Keeps P o
Leaves-Keeps P (ok w) h = h
Leaves-Keeps P (thrown w) h = h
Leaves-Keeps P (fault e) h = tt

on_error-Owned :
    (m : IrcMessage) (w : World) → 1 ≤ length m.arguments → Owned w → Keeps Owned (on_error m w)
on_error-Owned m w enough o =
    let (text, found) = get_elem?-some m.arguments 0 (omega arith) in
    let (w', ends, no_channel) = on_error_total m text w found o in
    rw ends (record { all = rw no_channel tt })

always :
    (h : Handler) {n : ℕ}
    → ((m : IrcMessage) (w : World) → Owned w → Keeps Owned (h m w))
    → (m : IrcMessage) (w : World) → n ≤ length m.arguments
    → Owned w
    → Keeps Owned (h m w)
always h keeps m w enough o = keeps m w o

if_total :
    (h : Handler) {n : ℕ}
    → ((m : IrcMessage) (w : World) → n ≤ length m.arguments → Owned w → Leaves Owned (h m w))
    → (m : IrcMessage) (w : World) → n ≤ length m.arguments
    → Owned w
    → Keeps Owned (h m w)
if_total h leaves m w enough o = Leaves-Keeps Owned (h m w) (leaves m w enough o)

-- Every handler of the table.
pub irc_callbacks-AllKeeping : AllKeeping irc_callbacks
unfolding irc_callbacks
irc_callbacks-AllKeeping =
    always on_notice on_notice-Owned
    ⨾ always forward_server_message forward_server_message-Owned
    ⨾ always forward_server_message forward_server_message-Owned
    ⨾ always skip (λ m w o. o)
    ⨾ always on_isupport_message (λ m w o. (modes-Owned m w o).0)
    ⨾ always skip (λ m w o. o)
    ⨾ always skip (λ m w o. o)
    ⨾ always skip (λ m w o. o)
    ⨾ always skip (λ m w o. o)
    ⨾ always skip (λ m w o. o)
    ⨾ always skip (λ m w o. o)
    ⨾ always on_empty_topic on_empty_topic-Owned
    ⨾ always on_empty_topic on_empty_topic-Owned
    ⨾ always on_invited on_invited-Owned
    ⨾ always empty_motd empty_motd-Owned
    ⨾ always empty_motd empty_motd-Owned
    ⨾ always on_motd_line on_motd_line-Owned
    ⨾ always on_motd_line on_motd_line-Owned
    ⨾ always send_motd send_motd-Owned
    ⨾ always send_motd send_motd-Owned
    ⨾ if_total on_channel_join on_channel_join-Owned
    ⨾ always on_channel_message on_channel_message-Owned
    ⨾ if_total set_and_forward_user_list set_and_forward_user_list-Owned
    ⨾ always on_topic_received on_topic_received-Owned
    ⨾ always on_topic_received on_topic_received-Owned
    ⨾ always on_topic_who_time_received on_topic_who_time_received-Owned
    ⨾ always on_topic_who_time_received on_topic_who_time_received-Owned
    ⨾ if_total on_channel_completely_joined on_channel_completely_joined-Owned
    ⨾ always on_banlist on_banlist-Owned
    ⨾ always on_banlist_end on_banlist_end-Owned
    ⨾ always on_own_host_received on_own_host_received-Owned
    ⨾ always on_erroneous_nickname on_erroneous_nickname-Owned
    ⨾ always on_nickname_conflict on_nickname_conflict-Owned
    ⨾ always on_nickname_change_too_fast on_nickname_change_too_fast-Owned
    ⨾ always on_useronchannel on_useronchannel-Owned
    ⨾ always on_channel_bad_key on_channel_bad_key-Owned
    ⨾ always on_useronchannel on_useronchannel-Owned
    ⨾ always on_welcome_message on_welcome_message-Owned
    ⨾ if_total on_part on_part-Owned
    ⨾ on_error-Owned
    ⨾ if_total on_quit (λ m w enough o. on_quit-Owned m w o)
    ⨾ always on_nick on_nick-Owned
    ⨾ always on_mode (λ m w o. (modes-Owned m w o).1)
    ⨾ always send_pong_command send_pong_command-Owned
    ⨾ always skip (λ m w o. o)
    ⨾ if_total on_kick on_kick-Owned
    ⨾ always on_invite on_invite-Owned
    ⨾ always on_cap on_cap-Owned
    ⨾ always on_generic_error on_generic_error-Owned
    ⨾ always on_generic_error on_generic_error-Owned
    ⨾ always on_generic_error on_generic_error-Owned
    ⨾ always on_generic_error on_generic_error-Owned
    ⨾ always on_generic_error on_generic_error-Owned
    ⨾ always on_generic_error on_generic_error-Owned
    ⨾ always on_generic_error on_generic_error-Owned
    ⨾ always on_generic_error on_generic_error-Owned
    ⨾ always on_generic_error on_generic_error-Owned
    ⨾ always on_generic_error on_generic_error-Owned
    ⨾ always on_generic_error on_generic_error-Owned
    ⨾ always on_generic_error on_generic_error-Owned
    ⨾ always on_generic_error on_generic_error-Owned
    ⨾ always on_generic_error on_generic_error-Owned
    ⨾ always on_generic_error on_generic_error-Owned
    ⨾ always on_generic_error on_generic_error-Owned
    ⨾ always on_generic_error on_generic_error-Owned
    ⨾ always on_generic_error on_generic_error-Owned
    ⨾ always on_generic_error on_generic_error-Owned
    ⨾ always on_generic_error on_generic_error-Owned
    ⨾ always on_generic_error on_generic_error-Owned
    ⨾ always on_generic_error on_generic_error-Owned
    ⨾ always on_generic_error on_generic_error-Owned
    ⨾ always on_generic_error on_generic_error-Owned
    ⨾ always on_generic_error on_generic_error-Owned
    ⨾ always on_generic_error on_generic_error-Owned
    ⨾ always on_generic_error on_generic_error-Owned
    ⨾ always on_generic_error on_generic_error-Owned
    ⨾ always on_generic_error on_generic_error-Owned
    ⨾ always on_generic_error on_generic_error-Owned
    ⨾ always on_generic_error on_generic_error-Owned
    ⨾ always on_generic_error on_generic_error-Owned
    ⨾ always on_generic_error on_generic_error-Owned
    ⨾ always on_generic_error on_generic_error-Owned
    ⨾ always on_generic_error on_generic_error-Owned
    ⨾ always on_generic_error on_generic_error-Owned
    ⨾ always on_generic_error on_generic_error-Owned
    ⨾ always on_generic_error on_generic_error-Owned
    ⨾ always on_generic_error on_generic_error-Owned
    ⨾ always on_generic_error on_generic_error-Owned
    ⨾ always on_generic_error on_generic_error-Owned
    ⨾ always on_generic_error on_generic_error-Owned
    ⨾ always on_generic_error on_generic_error-Owned
    ⨾ always on_generic_error on_generic_error-Owned
    ⨾ always on_generic_error on_generic_error-Owned
    ⨾ always on_generic_error on_generic_error-Owned
    ⨾ none_left
