-- ===== src/Client/Membership/Owned/Names.antt =====
-- The handlers of NAMES lists and of nick changes, and the ownership of the channels.
use biboumi.Base.{
  ℕ, Bool, true, false, Option, none, some, List, length, ◌≤◌, [], ◌∷◌, refl, arith, Bytes,
  Option-cases, Bool-cases, inl, inr, eq_bytes,
}
use biboumi.Irc.Channel.{IrcChannel, get_self, update_user}
use biboumi.Irc.Channel.Ownership.{IsOwned, add_user-IsOwned}
use biboumi.Irc.Channel.Ownership.Pointers.{update_user-IsOwned}
use biboumi.Irc.Iid.{Iid, channel}
use biboumi.Irc.Message.{IrcMessage}
use biboumi.Irc.User.{IrcUser, make_user, get_most_significant_mode, nick_of}
use biboumi.Utils.Strings.{tolower, split}
use biboumi.Bridge.Outgoing.{send_nick_change}
use biboumi.Client.Channels.{get_channel, put_channel}
use biboumi.Client.Frame.{channels-send_nick_change}
use biboumi.Client.Membership.{
  is_own_nick, set_modes, own_modes, on_name, on_names, set_and_forward_user_list, rename,
  rename_users, rename_in, renamed_user, change_nick_func, change_nick_all, on_nick,
}
use biboumi.Client.Membership.Owned.{
  Owned, Leaves, Keeps, Keeps-arg, Leaves-arg, Leaves-if, Owned-if, AllOwned, put_channel-Owned,
  get_channel-Owned, frame-Owned,
}
use biboumi.Client.Membership.Owned.Steps.{user_join-Owned, forward-Owned}
use biboumi.World.{World, Outcome, ok, thrown, fault, ◌>>=◌}

own_modes-IsOwned :
    (modes : List ℕ) (self : Option ℕ) (chan : IrcChannel)
    → IsOwned chan
    → IsOwned (record chan { users = own_modes modes self chan.users })
own_modes-IsOwned modes none chan h = h
own_modes-IsOwned modes (some id) chan h =
    update_user-IsOwned id (set_modes modes) (λ u. refl) chan h

on_name-Owned :
    (name nick : Bytes) (chan : IrcChannel) (w : World)
    → IsOwned chan
    → Owned w
    → IsOwned (on_name name nick chan w).0 × Owned (on_name name nick chan w).1
unfolding on_name
on_name-Owned name nick chan w h o =
    let tmp = make_user 0 nick w.client.prefix_to_mode in
    let (added, owns) = add_user-IsOwned nick w.client.prefix_to_mode chan h in
    elim (Bool-cases (is_own_nick tmp.nick chan)) [
      | inl own ↦ rw (own, on_name) (own_modes-IsOwned tmp.modes chan.self chan h, o)
      | inr other ↦ rw (other, on_name) (added, user_join-Owned _ _ _ _ false w o)
    ]

on_names-Owned :
    (name : Bytes) (nicks : List Bytes) (chan : IrcChannel) (w : World)
    → IsOwned chan
    → Owned w
    → IsOwned (on_names name nicks chan w).0 × Owned (on_names name nicks chan w).1
unfolding on_names
on_names-Owned name [] chan w h o = (h, o)
on_names-Owned name (nick ∷ nicks) chan w h o =
    let (h', o') = on_name-Owned name nick chan w h o in on_names-Owned name nicks _ _ h' o'

-- A list of names with the arguments that the table asks for runs into no undefined
-- behaviour, and leaves every channel well owned.
pub set_and_forward_user_list-Owned :
    (m : IrcMessage) (w : World)
    → 4 ≤ length m.arguments
    → Owned w
    → Leaves Owned (set_and_forward_user_list m w)
unfolding set_and_forward_user_list
set_and_forward_user_list-Owned m w enough o = Leaves-arg Owned m 2 _ (omega arith) λ name.
    Leaves-arg Owned m 3 _ (omega arith) λ names.
      let (h, o') = get_channel-Owned (tolower name) w o in
      let (chan, w') = get_channel (tolower name) w in
      let (h', o'') = on_names-Owned (tolower name) (split names b' ' true) chan w' h o' in
      let (chan', w'') = on_names (tolower name) (split names b' ' true) chan w' in
      Leaves-if chan.joined _ (ok (put_channel (tolower (tolower name)) chan' w''))
        (forward-Owned m w' o') (put_channel-Owned (tolower (tolower name)) chan' w'' h' o'')

rename_users-IsOwned :
    (new_nick : Bytes) (user me : IrcUser) (self : Bool) (chan : IrcChannel)
    → IsOwned chan
    → IsOwned (record chan { users = rename_users new_nick user me self chan.users })
rename_users-IsOwned new_nick user me true chan h =
    update_user-IsOwned me.id (rename new_nick) (λ u. refl)
      (record chan { users = update_user user.id (rename new_nick) chan.users })
      (update_user-IsOwned user.id (rename new_nick) (λ u. refl) chan h)
rename_users-IsOwned new_nick user me false chan h =
    update_user-IsOwned user.id (rename new_nick) (λ u. refl) chan h

rename_in-Owned :
    (new_nick name : Bytes) (chan : IrcChannel) (user : IrcUser) (w : World)
    → IsOwned chan
    → Owned w
    → Keeps Owned (rename_in new_nick name chan user w)
unfolding rename_in
rename_in-Owned new_nick name chan user w h o = elim (Option-cases (get_self chan)) [
  | inl absent ↦ rw (absent, rename_in) tt
  | inr (me, there) ↦
      let self = eq_bytes me.nick user.nick in
      let iid : Iid = record { local = name; server_name = w.client.hostname; type = channel } in
      let told =
        send_nick_change iid user.nick new_nick
          (get_most_significant_mode user w.client.sorted_user_modes) self w in
      let kept =
        put_channel-Owned name
          (record chan { users = rename_users new_nick user me self chan.users }) told
          (rename_users-IsOwned new_nick user me self chan h)
          (frame-Owned w told (channels-send_nick_change w iid _ _ _ self) o) in
      rw (there, rename_in) (Owned-if self (record { all = kept.all }) kept)
]

change_nick_func-Owned :
    (new_nick current_nick name : Bytes) (chan : IrcChannel) (w : World)
    → IsOwned chan
    → Owned w
    → Keeps Owned (change_nick_func new_nick current_nick name chan w)
unfolding change_nick_func
change_nick_func-Owned new_nick current_nick name chan w h o =
    elim (Option-cases (renamed_user current_nick chan)) [
      | inl absent ↦ rw (absent, change_nick_func) o
      | inr (user, found) ↦
          rw (found, change_nick_func) (rename_in-Owned new_nick name chan user w h o)
    ]

Keeps-then :
    (a : Outcome World) (f : World → Outcome World)
    → Keeps Owned a
    → ((w : World) → Owned w → Keeps Owned (f w))
    → Keeps Owned (a >>= f)
Keeps-then (ok w) f h k = k w h
Keeps-then (thrown w) f h k = h
Keeps-then (fault e) f h k = tt

change_nick_all-Owned :
    (new_nick current_nick : Bytes) (channels : List (Bytes × IrcChannel)) (w : World)
    → AllOwned channels
    → Owned w
    → Keeps Owned (change_nick_all new_nick current_nick channels w)
unfolding change_nick_all
change_nick_all-Owned new_nick current_nick [] w a o = o
change_nick_all-Owned new_nick current_nick ((name, chan) ∷ channels) w a o =
    Keeps-then (change_nick_func new_nick current_nick name chan w) _
      (change_nick_func-Owned new_nick current_nick name chan w a.0 o)
      λ w' o'. change_nick_all-Owned new_nick current_nick channels w' a.1 o'

-- A NICK leaves every channel well owned, unless it has undefined behaviour.
pub on_nick-Owned : (m : IrcMessage) (w : World) → Owned w → Keeps Owned (on_nick m w)
unfolding on_nick
on_nick-Owned m w o =
    Keeps-arg Owned m 0 _
      λ nick. change_nick_all-Owned (nick_of nick) (nick_of m.prefix) w.client.channels w o.all o
