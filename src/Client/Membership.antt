-- ===== src/Client/Membership.antt =====
-- The handlers of src/irc/irc_client.cpp for who is in which channel: NAMES lists, JOIN, PART,
-- QUIT, KICK, NICK and ERROR.
pub mod Owned
use biboumi.Base.{
  ℕ, Bool, true, false, not, ◌&&◌, ◌||◌, Option, none, some, List, [], ◌∷◌, ◌++◌, ◌==◌,
  if◌then◌else◌, Bytes, codes, eq_bytes, get_elem?,
}
use biboumi.Irc.Channel.{
  IrcChannel, add_user, find_user, get_self, set_self, remove_user, update_user, is_self,
}
use biboumi.Irc.Iid.{Iid, channel, channel_iid}
use biboumi.Irc.Message.{IrcMessage}
use biboumi.Irc.User.{IrcUser, make_user, nick_of, get_most_significant_mode}
use biboumi.Utils.Strings.{tolower, split}
use biboumi.Bridge.Outgoing.{
  send_user_join, send_topic, send_muc_leave, send_nick_change, kick_muc_user,
}
use biboumi.Client.Channels.{get_channel, put_channel, put_channels, erase_channel}
use biboumi.Client.Texts.{Handler, forward_server_message, send_gateway_message, optional}
use biboumi.World.{
  IrcClient, World, Outcome, ok, thrown, fault, null_pointer, ◌>>=◌, arg, or_fault, with_client,
}

abbrev announce : Bytes → IrcUser → Bool → World → World
announce chan_name user self w =
    send_user_join w.client.hostname chan_name user
      (get_most_significant_mode user w.client.sorted_user_modes) self w

-- Whether the pointer to oneself is the user of that nick.
unfoldable pub is_own_nick : Bytes → IrcChannel → Bool
is_own_nick nick chan = elim (find_user nick chan) [ none ↦ false | some u ↦ is_self u.id chan ]

abbrev set_modes : List ℕ → IrcUser → IrcUser
set_modes modes u = record u { modes = modes }

abbrev own_modes : List ℕ → Option ℕ → List IrcUser → List IrcUser
own_modes modes none users = users
own_modes modes (some self) users = update_user self (set_modes modes) users

-- One name of the list: the channel and the state after it.
unfoldable pub on_name : Bytes → Bytes → IrcChannel → World → IrcChannel × World
on_name chan_name nick chan w =
    let tmp_user = make_user 0 nick w.client.prefix_to_mode in
    if is_own_nick tmp_user.nick chan
    then (record chan { users = own_modes tmp_user.modes chan.self chan.users }, w)
    else (
      (add_user nick w.client.prefix_to_mode chan).0,
      announce chan_name (add_user nick w.client.prefix_to_mode chan).1 false w,
    )

unfoldable pub on_names : Bytes → List Bytes → IrcChannel → World → IrcChannel × World
unfolding on_name
on_names chan_name [] chan w = (chan, w)
on_names chan_name (nick ∷ nicks) chan w =
    on_names chan_name nicks (on_name chan_name nick chan w).0 (on_name chan_name nick chan w).1

unfoldable pub set_and_forward_user_list : Handler
unfolding on_names
set_and_forward_user_list m w = do
  name ← arg m 2
  names ← arg m 3
  let (chan, w') = get_channel (tolower name) w
  let (chan', w'') = on_names (tolower name) (split names b' ' true) chan w'
  if chan.joined
      then forward_server_message m w'
      else ok (put_channel (tolower (tolower name)) chan' w'')

unfoldable pub on_channel_join : Handler
on_channel_join m w = do
  name ← arg m 0
  let (chan, w') = get_channel (tolower name) w
  let (chan', user) = add_user m.prefix w.client.prefix_to_mode chan
  ok (
      if chan.joined
      then announce (tolower name) user false (put_channel (tolower (tolower name)) chan' w')
      else put_channel (tolower (tolower name)) (set_self user.id chan') w')

-- We are in the channel, at the end of the list of names.
unfoldable pub complete_join : Bytes → IrcChannel → IrcUser → World → World
complete_join chan_name chan self w =
    send_topic w.client.hostname chan_name chan.topic chan.topic_author (
      announce chan_name self true
        (put_channel (tolower chan_name) (record chan { joined = true }) w))

unfoldable pub on_channel_completely_joined : Handler
unfolding complete_join
on_channel_completely_joined m w = do
  name ← arg m 1
  let (chan, w') = get_channel (tolower name) w
  if eq_bytes (tolower name) (codes "*") || chan.joined
      then forward_server_message m w'
      else elim (get_self chan) [
        | none ↦ ok w'
        | some self ↦ ok (complete_join (tolower name) chan self w')
      ]

unfoldable pub has_own_nick : Bytes → IrcChannel → Bool
has_own_nick nick chan = elim (get_self chan) [ none ↦ false | some self ↦ eq_bytes self.nick nick ]

unfoldable pub part_user : Bytes → Bytes → IrcChannel → IrcUser → World → World
unfolding has_own_nick
part_user chan_name txt chan user w =
    let self = has_own_nick user.nick chan in
    send_muc_leave (channel_iid chan_name w.client.hostname) user txt self true (
      if self
      then erase_channel chan_name w
      else put_channel (tolower chan_name) (remove_user user chan) w)

unfoldable pub on_part : Handler
unfolding part_user
on_part m w = do
  chan_name ← arg m 0
  let (chan, w') = get_channel chan_name w
  if not chan.joined then ok w' else elim (find_user m.prefix chan) [
    | none ↦ ok w'
    | some user ↦ ok (part_user chan_name (optional [] (get_elem? m.arguments 1)) chan user w')
  ]

-- The leave of one channel of the loop of `on_error`; `*channel->get_self()` is read.
unfoldable pub leave_on_error : Bytes → Bytes → IrcChannel → World → Outcome World
leave_on_error leave_message name chan w = if not chan.joined then ok w else do
  self ← or_fault null_pointer (get_self chan)
  ok (send_muc_leave (channel_iid name w.client.hostname) self leave_message true false w)

unfoldable pub leave_all : Bytes → List (Bytes × IrcChannel) → World → Outcome World
unfolding leave_on_error
leave_all leave_message [] w = ok w
leave_all leave_message ((name, chan) ∷ channels) w = do
  w' ← leave_on_error leave_message name chan w
  leave_all leave_message channels w'

unfoldable pub on_error : Handler
unfolding leave_all
on_error m w = do
  leave_message ← arg m 0
  w' ← leave_all leave_message w.client.channels w
  ok (send_gateway_message (codes "ERROR: " ++ leave_message) [] (put_channels [] w'))

unfoldable pub quit_channel : Bytes → Bytes → Bytes → IrcChannel → World → World
quit_channel prefix txt name chan w = elim (find_user prefix chan) [
  | none ↦ w
  | some user ↦
      put_channel name (remove_user user chan) (
        send_muc_leave (channel_iid name w.client.hostname) user txt (is_self user.id chan) false w)
]

unfoldable pub quit_channels : Bytes → Bytes → List (Bytes × IrcChannel) → World → World
unfolding quit_channel
quit_channels prefix txt [] w = w
quit_channels prefix txt ((name, chan) ∷ channels) w =
    quit_channels prefix txt channels (quit_channel prefix txt name chan w)

unfoldable pub on_quit : Handler
unfolding quit_channels
on_quit m w =
    ok (quit_channels m.prefix (optional [] (get_elem? m.arguments 0)) w.client.channels w)

abbrev rename : Bytes → IrcUser → IrcUser
rename nick u = record u { nick = nick }

-- The user whose nick changes: oneself first.
unfoldable pub renamed_user : Bytes → IrcChannel → Option IrcUser
unfolding has_own_nick
renamed_user current_nick chan =
    if has_own_nick current_nick chan then get_self chan else find_user current_nick chan

-- `user->nick = new_nick`, and that of oneself if it had the same nick.
abbrev rename_users : Bytes → IrcUser → IrcUser → Bool → List IrcUser → List IrcUser
rename_users new_nick user me self users =
    let renamed = update_user user.id (rename new_nick) users in
    if self then update_user me.id (rename new_nick) renamed else renamed

-- The user exists; `channel->get_self()->nick` is read with no test of the pointer.
unfoldable pub rename_in : Bytes → Bytes → IrcChannel → IrcUser → World → Outcome World
rename_in new_nick name chan user w = do
  me ← or_fault null_pointer (get_self chan)
  let self = eq_bytes me.nick user.nick
  let iid : Iid = record { local = name; server_name = w.client.hostname; type = channel }
  let told =
      send_nick_change iid user.nick new_nick
        (get_most_significant_mode user w.client.sorted_user_modes) self w
  let kept =
      put_channel name (record chan { users = rename_users new_nick user me self chan.users }) told
  ok (if self then with_client (λ c. record c { current_nick = new_nick }) kept else kept)

unfoldable pub change_nick_func : Bytes → Bytes → Bytes → IrcChannel → World → Outcome World
unfolding rename_in renamed_user
change_nick_func new_nick current_nick name chan w = elim (renamed_user current_nick chan) [
  | none ↦ ok w
  | some user ↦ rename_in new_nick name chan user w
]

unfoldable pub change_nick_all : Bytes → Bytes → List (Bytes × IrcChannel) → World → Outcome World
unfolding change_nick_func
change_nick_all new_nick current_nick [] w = ok w
change_nick_all new_nick current_nick ((name, chan) ∷ channels) w = do
  w' ← change_nick_func new_nick current_nick name chan w
  change_nick_all new_nick current_nick channels w'

unfoldable pub on_nick : Handler
unfolding change_nick_all
on_nick m w = do
  nick ← arg m 0
  change_nick_all (nick_of nick) (nick_of m.prefix) w.client.channels w

unfoldable pub kick_target : Bytes → Bytes → Bytes → Bytes → IrcChannel → IrcUser → World → World
kick_target chan_name target_nick reason author chan target w =
    let self = is_self target.id chan in
    let chan' = if self then record chan { joined = false } else chan in
    put_channel (tolower chan_name) (remove_user target chan')
      (kick_muc_user (channel_iid chan_name w.client.hostname) target_nick reason author self w)

unfoldable pub on_kick : Handler
unfolding kick_target
on_kick m w = do
  name ← arg m 0
  target_nick ← arg m 1
  reason ← arg m 2
  let (chan, w') = get_channel (tolower name) w
  if not chan.joined then ok w' else elim (find_user target_nick chan) [
    | none ↦ ok w'
    | some target ↦
        ok (kick_target (tolower name) target_nick reason (nick_of m.prefix) chan target w')
  ]
