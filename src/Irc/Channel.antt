-- ===== src/Irc/Channel.antt =====
-- src/irc/irc_channel.cpp. A pointer to a user of the channel is its `id`; `next_id` is the address
-- that the next `new` gives.
pub mod Ownership
use biboumi.Base.{
  ℕ, ◌+◌, Bool, true, false, Option, none, some, List, [], ◌∷◌, ◌++◌, ◌==◌, if◌then◌else◌, Bytes,
  eq_bytes,
}
use biboumi.Irc.User.{IrcUser, make_user, nick_of}

pub record IrcChannel : Type 0 where
  pub joined : Bool
  pub parting : Bool
  pub topic : Bytes
  pub topic_author : Bytes
  pub self : Option ℕ
  pub users : List IrcUser
  pub next_id : ℕ

unfoldable pub empty_channel : IrcChannel
empty_channel = record {
  joined = false;
  parting = false;
  topic = [];
  topic_author = [];
  self = none;
  users = [];
  next_id = 0;
}

unfoldable pub set_self : ℕ → IrcChannel → IrcChannel
set_self user chan = record chan { self = some user }

unfoldable pub find_nick : Bytes → List IrcUser → Option IrcUser
find_nick nick [] = none
find_nick nick (u ∷ users) = if eq_bytes u.nick nick then some u else find_nick nick users

-- `find_user`, which takes a nick, or a prefix such as `nick!user@host`.
unfoldable pub find_user : Bytes → IrcChannel → Option IrcUser
unfolding find_nick nick_of
find_user name chan = find_nick (nick_of name) chan.users

-- What a pointer points to.
unfoldable pub deref : ℕ → List IrcUser → Option IrcUser
deref id [] = none
deref id (u ∷ users) = if u.id == id then some u else deref id users

unfoldable pub get_self : IrcChannel → Option IrcUser
unfolding deref
get_self chan = elim chan.self [ none ↦ none | some id ↦ deref id chan.users ]

-- The channel after the call, and the user that it returns.
unfoldable pub add_user : Bytes → List (ℕ × ℕ) → IrcChannel → IrcChannel × IrcUser
unfolding find_user make_user
add_user name prefix_to_mode chan =
    let new_user = make_user chan.next_id name prefix_to_mode in
    elim (find_user new_user.nick chan) [
      | some old_user ↦ (chan, old_user)
      | none ↦ (
        record chan { users = chan.users ++ new_user ∷ []; next_id = chan.next_id + 1 },
        new_user,
      )
    ]

unfoldable pub erase_nick : Bytes → List IrcUser → List IrcUser
erase_nick nick [] = []
erase_nick nick (u ∷ users) = if eq_bytes u.nick nick then users else u ∷ erase_nick nick users

abbrev pub is_self : ℕ → IrcChannel → Bool
is_self id chan = elim chan.self [ none ↦ false | some s ↦ id == s ]

-- The user is found again by its nick.
unfoldable pub remove_user : IrcUser → IrcChannel → IrcChannel
unfolding find_nick erase_nick
remove_user user chan = elim (find_nick user.nick chan.users) [
  | none ↦ chan
  | some u ↦
      if is_self user.id chan
      then record chan { users = erase_nick user.nick chan.users; self = none; joined = false }
      else record chan { users = erase_nick user.nick chan.users }
]

-- Writing through a pointer.
unfoldable pub update_user : ℕ → (IrcUser → IrcUser) → List IrcUser → List IrcUser
update_user id f [] = []
update_user id f (u ∷ users) = if u.id == id then f u ∷ users else u ∷ update_user id f users
