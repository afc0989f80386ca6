-- ===== src/Client/Membership/Owned/Steps.antt =====
-- The handlers of the members and the ownership of the channels.
use biboumi.Base.{
  ℕ, Bool, true, false, not, none, some, List, length, ◌≤◌, arith, [], ◌∷◌, ◌++◌, ◌≡◌, refl, Bytes,
  Option-cases, Bool-cases, inl, inr, get_elem?, codes,
}
use biboumi.Irc.Channel.{IrcChannel, add_user, find_user, get_self, set_self, remove_user, is_self}
use biboumi.Irc.Channel.Ownership.{
  IsOwned, add_user-IsOwned, set_self-IsOwned, remove_user-IsOwned, find_nick_again, joined-IsOwned,
  kicked-IsOwned,
}
use biboumi.Irc.Channel.Ownership.Pointers.{get_self_joined}
use biboumi.Irc.Iid.{Iid, channel_iid}
use biboumi.Irc.Message.{IrcMessage}
use biboumi.Irc.User.{IrcUser, nick_of}
use biboumi.Utils.Strings.{tolower}
use biboumi.Bridge.Outgoing.{send_user_join, send_muc_leave, kick_muc_user}
use biboumi.Client.Channels.{get_channel, put_channel, put_channels, erase_channel}
use biboumi.Client.Frame.{
  channels_of, channels-send_muc_leave, channels-kick_muc_user, channels-send_topic,
  channels-send_xmpp_message, channels-send_user_join,
}
use biboumi.Client.Membership.{
  on_channel_join, complete_join, on_channel_completely_joined, has_own_nick, part_user, on_part,
  quit_channel, quit_channels, on_quit, kick_target, on_kick, leave_on_error, leave_all, on_error,
}
use biboumi.Client.Membership.Owned.{
  Owned, Leaves, Leaves-arg, Leaves-if, Owned-if, AllOwned, put_channel-Owned, get_channel-Owned,
  erase-AllOwned, frame-Owned,
}
use biboumi.Client.Texts.{forward_server_message, send_gateway_message, optional}
use biboumi.World.{World, ok}

pub user_join-Owned :
    (hostname name : Bytes) (user : IrcUser) (mode : ℕ) (self : Bool) (w : World)
    → Owned w
    → Owned (send_user_join hostname name user mode self w)
user_join-Owned hostname name user mode self w o =
    frame-Owned w _ (channels-send_user_join w hostname name user mode self) o

muc_leave-Owned :
    (iid : Iid) (user : IrcUser) (message : Bytes) (self user_requested : Bool) (w : World)
    → Owned w
    → Owned (send_muc_leave iid user message self user_requested w)
muc_leave-Owned iid user message self user_requested w o =
    frame-Owned w _ (channels-send_muc_leave iid user message self user_requested w) o

pub forward-Owned :
    (m : IrcMessage) (w : World) → Owned w → Leaves Owned (forward_server_message m w)
unfolding forward_server_message
forward-Owned m w o = frame-Owned w _ (channels-send_xmpp_message w _ _ _) o

join_channel-Owned :
    (name prefix : Bytes) (chan : IrcChannel) (prefixes : List (ℕ × ℕ)) (w : World)
    → IsOwned chan
    → Owned w
    → Owned (put_channel (tolower name) (add_user prefix prefixes chan).0 w)
      × Owned (
          put_channel
            (tolower name)
            (set_self (add_user prefix prefixes chan).1.id (add_user prefix prefixes chan).0)
            w)
join_channel-Owned name prefix chan prefixes w h o =
    let (added, owns) = add_user-IsOwned prefix prefixes chan h in
    (
      put_channel-Owned (tolower name) _ w added o,
      put_channel-Owned (tolower name) _ w (set_self-IsOwned _ _ owns added) o,
    )

-- A JOIN with the arguments that the table asks for runs into no undefined
-- behaviour, and leaves every channel well owned.
pub on_channel_join-Owned :
    (m : IrcMessage) (w : World)
    → 1 ≤ length m.arguments
    → Owned w
    → Leaves Owned (on_channel_join m w)
unfolding on_channel_join
on_channel_join-Owned m w enough o = Leaves-arg Owned m 0 _ (omega arith) λ name.
    let got = get_channel-Owned (tolower name) w o in
    let kept = join_channel-Owned (tolower name) m.prefix _ w.client.prefix_to_mode _ got.0 got.1 in
    Owned-if (get_channel (tolower name) w).0.joined (user_join-Owned _ _ _ _ false _ kept.0) kept.1

completed-Owned :
    (name : Bytes) (chan : IrcChannel) (m : IrcMessage) (w : World)
    → IsOwned chan
    → Owned w
    → Leaves Owned
        (elim (get_self chan) [ none ↦ ok w | some self ↦ ok (complete_join name chan self w) ])
unfolding complete_join
completed-Owned name chan m w h o = elim (Option-cases (get_self chan)) [
  | inl absent ↦ rw absent o
  | inr (self, there) ↦ rw there (
      frame-Owned _ _ (channels-send_topic _ _ _ _ _) (
        user_join-Owned _ _ self _ true _
          (put_channel-Owned (tolower name) _ w (joined-IsOwned chan self there h) o)))
]

-- The end of the list of names with the arguments that the table asks for runs into no undefined
-- behaviour, and leaves every channel well owned.
pub on_channel_completely_joined-Owned :
    (m : IrcMessage) (w : World)
    → 2 ≤ length m.arguments
    → Owned w
    → Leaves Owned (on_channel_completely_joined m w)
unfolding on_channel_completely_joined
on_channel_completely_joined-Owned m w enough o = Leaves-arg Owned m 1 _ (omega arith) λ name.
    let (h, o') = get_channel-Owned (tolower name) w o in
    Leaves-if _ _ _ (forward-Owned m _ o') (completed-Owned (tolower name) _ m _ h o')

removed-Owned :
    (name : Bytes) (n : Bytes) (user : IrcUser) (chan : IrcChannel) (w : World)
    → find_user n chan ≡ some user
    → IsOwned chan
    → Owned w
    → Owned (put_channel name (remove_user user chan) w)
removed-Owned name n user chan w found h o =
    put_channel-Owned name _ w
      (remove_user-IsOwned user chan
        (find_nick_again (nick_of n) chan.users user (unfold find_user in found)) h)
      o

erased-Owned : (n : Bytes) (w : World) → Owned w → Owned (erase_channel n w)
unfolding erase_channel
erased-Owned n w o = record { all = erase-AllOwned (tolower n) w.client.channels o.all }

parted-Owned :
    (name txt : Bytes) (prefix : Bytes) (chan : IrcChannel) (w : World)
    → IsOwned chan
    → Owned w
    → Leaves Owned (elim (find_user prefix chan) [
      | none ↦ ok w
      | some user ↦ ok (part_user name txt chan user w)
    ])
unfolding part_user
parted-Owned name txt prefix chan w h o = elim (Option-cases (find_user prefix chan)) [
  | inl absent ↦ rw absent o
  | inr (user, found) ↦ rw found (
      muc_leave-Owned _ user txt _ true _ (
        Owned-if (has_own_nick user.nick chan) (erased-Owned name w o)
          (removed-Owned (tolower name) prefix user chan w found h o)))
]

-- A PART with the arguments that the table asks for runs into no undefined
-- behaviour, and leaves every channel well owned.
pub on_part-Owned :
    (m : IrcMessage) (w : World) → 1 ≤ length m.arguments → Owned w → Leaves Owned (on_part m w)
unfolding on_part
on_part-Owned m w enough o = Leaves-arg Owned m 0 _ (omega arith) λ name.
    let (h, o') = get_channel-Owned name w o in
    let (chan, w') = get_channel name w in
    Leaves-if (not chan.joined) (ok w') _ o'
      (parted-Owned name (optional [] (get_elem? m.arguments 1)) m.prefix chan w' h o')

kicked-Owned :
    (name target_nick reason author : Bytes) (chan : IrcChannel) (w : World)
    → IsOwned chan
    → Owned w
    → Leaves Owned (elim (find_user target_nick chan) [
      | none ↦ ok w
      | some target ↦ ok (kick_target name target_nick reason author chan target w)
    ])
unfolding kick_target
kicked-Owned name target_nick reason author chan w h o =
    elim (Option-cases (find_user target_nick chan)) [
      | inl absent ↦ rw absent o
      | inr (target, found) ↦
          let self = is_self target.id chan in
          let iid = channel_iid name w.client.hostname in
          let told = kick_muc_user iid target_nick reason author self w in
          rw found (
            put_channel-Owned (tolower name) _ told
              (kicked-IsOwned self target chan
                (find_nick_again (nick_of target_nick) chan.users target
                  (unfold find_user in found))
                h)
              (frame-Owned w told (channels-kick_muc_user w iid target_nick reason author self) o))
    ]

-- A KICK with the arguments that the table asks for runs into no undefined
-- behaviour, and leaves every channel well owned.
pub on_kick-Owned :
    (m : IrcMessage) (w : World) → 3 ≤ length m.arguments → Owned w → Leaves Owned (on_kick m w)
unfolding on_kick
on_kick-Owned m w enough o = Leaves-arg Owned m 0 _ (omega arith) λ name.
    Leaves-arg Owned m 1 _ (omega arith) λ target_nick.
      Leaves-arg Owned m 2 _ (omega arith) λ reason.
        let (h, o') = get_channel-Owned (tolower name) w o in
        let (chan, w') = get_channel (tolower name) w in
        Leaves-if (not chan.joined) (ok w') _ o'
          (kicked-Owned (tolower name) target_nick reason (nick_of m.prefix) chan w' h o')

quit_channel-Owned :
    (prefix txt name : Bytes) (chan : IrcChannel) (w : World)
    → IsOwned chan
    → Owned w
    → Owned (quit_channel prefix txt name chan w)
unfolding quit_channel
quit_channel-Owned prefix txt name chan w h o = elim (Option-cases (find_user prefix chan)) [
  | inl absent ↦ rw (absent, quit_channel) o
  | inr (user, found) ↦
      let iid = channel_iid name w.client.hostname in
      rw (found, quit_channel)
        (removed-Owned name prefix user chan _ found h
          (muc_leave-Owned iid user txt (is_self user.id chan) false w o))
]

quit_channels-Owned :
    (prefix txt : Bytes) (channels : List (Bytes × IrcChannel)) (w : World)
    → AllOwned channels
    → Owned w
    → Owned (quit_channels prefix txt channels w)
unfolding quit_channels
quit_channels-Owned prefix txt [] w a o = o
quit_channels-Owned prefix txt ((name, chan) ∷ channels) w a o =
    quit_channels-Owned prefix txt channels _ a.1 (quit_channel-Owned prefix txt name chan w a.0 o)

-- A QUIT runs into no undefined behaviour, and leaves every channel well owned.
pub on_quit-Owned : (m : IrcMessage) (w : World) → Owned w → Leaves Owned (on_quit m w)
unfolding on_quit
on_quit-Owned m w o =
    quit_channels-Owned m.prefix (optional [] (get_elem? m.arguments 0)) w.client.channels w o.all o

leave_on_error_total :
    (message name : Bytes) (chan : IrcChannel) (w : World)
    → IsOwned chan
    → (w' : World) × (leave_on_error message name chan w ≡ ok w')
unfolding leave_on_error
leave_on_error_total message name chan w h = elim (Bool-cases chan.joined) [
  | inl joined ↦
      let (self, there) = get_self_joined chan h joined in
      (
        send_muc_leave (channel_iid name w.client.hostname) self message true false w,
        simp (joined, there, leave_on_error),
      )
  | inr out ↦ (w, simp (out, leave_on_error))
]

leave_all_total :
    (message : Bytes) (channels : List (Bytes × IrcChannel)) (w : World)
    → AllOwned channels
    → (w' : World) × (leave_all message channels w ≡ ok w')
unfolding leave_all
leave_all_total message [] w a = (w, refl)
leave_all_total message ((name, chan) ∷ channels) w a =
    let (w', e) = leave_on_error_total message name chan w a.0 in
    let (w'', e') = leave_all_total message channels w' a.1 in (w'', rw e e')

-- While the channels are well owned, the loss of the connection reads no null pointer: the handler
-- ends, and it leaves no channel.
pub on_error_total :
    (m : IrcMessage) (leave_message : Bytes) (w : World)
    → get_elem? m.arguments 0 ≡ some leave_message
    → Owned w
    → (w' : World) × (on_error m w ≡ ok w') × (channels_of w' ≡ [])
unfolding on_error
on_error_total m leave_message w e o =
    let (w', left) = leave_all_total leave_message w.client.channels w o.all in
    (
      send_gateway_message (codes "ERROR: " ++ leave_message) [] (put_channels [] w'),
      rw (e, on_error) (rw left),
      unfold send_gateway_message put_channels in
          channels-send_xmpp_message (put_channels [] w') _ _ _,
    )
