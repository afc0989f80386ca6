-- ===== src/Irc/Channel/Ownership.antt =====
-- The pointer to oneself of src/irc/irc_channel.cpp, and the operations on the users.
pub mod Pointers
use biboumi.Base.{
  ℕ, ◌+◌, ◌<◌, Bool, true, false, Option, none, some, List, [], ◌∷◌, ◌++◌, ◌≡◌, ◌≢◌, refl, arith,
  ◌==◌, All, All-append, ◌⊎◌, Bytes, eq_bytes, eq_bytes_iff, eq_bytes_refl, Bool-cases,
  Option-cases, inl, inr, if◌then◌else◌, sym, ◌∙◌, lookup, nat_eq,
}
use mathlib.Core.Path.{subst}
use biboumi.Irc.User.{IrcUser, insert_mode, make_user, parse_name, nick_of}
use biboumi.Irc.Channel.{
  IrcChannel, empty_channel, set_self, find_nick, find_user, deref, get_self, add_user, erase_nick,
  remove_user, is_self, update_user,
}

abbrev pub OwnsId : List IrcUser → ℕ → Type 0
OwnsId [] id = ⊥
OwnsId (u ∷ users) id = (u.id ≡ id) ⊎ OwnsId users id

abbrev OwnsSelf : List IrcUser → Option ℕ → Type 0
OwnsSelf users none = Unit
OwnsSelf users (some id) = OwnsId users id

abbrev HasSelf : Bool → Option ℕ → Type 0
HasSelf true none = ⊥
HasSelf _ _ = Unit

abbrev Distinct : List IrcUser → Type 0
Distinct [] = Unit
Distinct (u ∷ users) = All (λ (v : IrcUser). v.id ≢ u.id) users × Distinct users

-- The users are different objects, the pointer to oneself points to one of them, and it is there
-- while the channel is joined.
pub record IsOwned (chan : IrcChannel) : Type 0 where
  pub fresh : All (λ (u : IrcUser). u.id < chan.next_id) chan.users
  pub distinct : Distinct chan.users
  pub self_owned : OwnsSelf chan.users chan.self
  pub has_self : HasSelf chan.joined chan.self

erase_nick-All {κ} :
    (P : IrcUser → Type κ) (nick : Bytes) (users : List IrcUser)
    → All P users
    → All P (erase_nick nick users)
unfolding erase_nick
erase_nick-All P nick [] h = tt
erase_nick-All P nick (u ∷ users) h = elim (Bool-cases (eq_bytes u.nick nick)) [
  | inl same ↦ rw same h.1
  | inr other ↦ rw other (h.0, erase_nick-All P nick users h.1)
]

erase_nick-Distinct :
    (nick : Bytes) (users : List IrcUser) → Distinct users → Distinct (erase_nick nick users)
unfolding erase_nick
erase_nick-Distinct nick [] h = tt
erase_nick-Distinct nick (u ∷ users) h = elim (Bool-cases (eq_bytes u.nick nick)) [
  | inl same ↦ rw same h.1
  | inr other ↦ rw other (
    erase_nick-All (λ (v : IrcUser). v.id ≢ u.id) nick users h.0,
    erase_nick-Distinct nick users h.1,
  )
]

erase_nick-OwnsId :
    (nick : Bytes) (users : List IrcUser) (user : IrcUser) (id : ℕ)
    → find_nick nick users ≡ some user
    → user.id ≢ id
    → OwnsId users id
    → OwnsId (erase_nick nick users) id
unfolding erase_nick find_nick
erase_nick-OwnsId nick [] user id found ne o = o
erase_nick-OwnsId nick (u ∷ users) user id found ne (inl here) =
    elim (Bool-cases (eq_bytes u.nick nick)) [
      | inl same ↦ absurd (ne (ground arith))
      | inr other ↦ rw other (inl here)
    ]
erase_nick-OwnsId nick (u ∷ users) user id found ne (inr there) =
    elim (Bool-cases (eq_bytes u.nick nick)) [
      | inl same ↦ rw same there
      | inr other ↦
          rw other (inr (erase_nick-OwnsId nick users user id (rw other at found) ne there))
    ]

find_nick-OwnsId :
    (nick : Bytes) (users : List IrcUser) (user : IrcUser)
    → find_nick nick users ≡ some user
    → OwnsId users user.id
unfolding find_nick
find_nick-OwnsId nick [] user found = cc
find_nick-OwnsId nick (u ∷ users) user found = elim (Bool-cases (eq_bytes u.nick nick)) [
  | inl same ↦ inl (ground arith)
  | inr other ↦ inr (find_nick-OwnsId nick users user (rw other at found))
]

OwnsId-append :
    (users : List IrcUser) (user : IrcUser) (id : ℕ)
    → OwnsId users id
    → OwnsId (users ++ user ∷ []) id
OwnsId-append [] user id o = absurd o
OwnsId-append (u ∷ users) user id (inl here) = inl here
OwnsId-append (u ∷ users) user id (inr there) = inr (OwnsId-append users user id there)

OwnsId-last : (users : List IrcUser) (user : IrcUser) → OwnsId (users ++ user ∷ []) user.id
OwnsId-last [] user = inl refl
OwnsId-last (u ∷ users) user = inr (OwnsId-last users user)

Distinct-append :
    (users : List IrcUser) (user : IrcUser)
    → All (λ (u : IrcUser). u.id < user.id) users
    → Distinct users
    → Distinct (users ++ user ∷ [])
Distinct-append [] user h d = (tt, tt)
Distinct-append (u ∷ users) user h d = (
  All-append (λ (v : IrcUser). v.id ≢ u.id) users (user ∷ []) d.0 (omega arith, tt),
  Distinct-append users user h.1 d.1,
)

All-weaken :
    (users : List IrcUser) (n : ℕ)
    → All (λ (u : IrcUser). u.id < n) users
    → All (λ (u : IrcUser). u.id < n + 1) users
All-weaken [] n h = tt
All-weaken (u ∷ users) n h = (omega arith, All-weaken users n h.1)

id-parse_name :
    (id : ℕ) (modes : List ℕ) (name : Bytes) (prefixes : List (ℕ × ℕ))
    → (parse_name id modes name prefixes).id ≡ id
unfolding parse_name
id-parse_name id modes [] prefixes = refl
id-parse_name id modes (c ∷ name) prefixes = elim (Option-cases (lookup c prefixes)) [
  | inl plain ↦ rw (plain, parse_name)
  | inr (mode, prefix) ↦
      rw (prefix, parse_name) (id-parse_name id (insert_mode mode modes) name prefixes)
]

-- A new channel, and a channel with the pointer set to one of its users.
pub IsOwned-empty_channel : IsOwned empty_channel
unfolding empty_channel
IsOwned-empty_channel = record { fresh = tt; distinct = tt; self_owned = tt; has_self = tt }

HasSelf-some : (joined : Bool) (id : ℕ) → HasSelf joined (some id)
HasSelf-some true id = tt
HasSelf-some false id = tt

pub set_self-IsOwned :
    (chan : IrcChannel) (id : ℕ) → OwnsId chan.users id → IsOwned chan → IsOwned (set_self id chan)
unfolding set_self
set_self-IsOwned chan id o h = record {
  fresh = h.fresh;
  distinct = h.distinct;
  self_owned = o;
  has_self = HasSelf-some chan.joined id;
}

OwnsSelf-append :
    (users : List IrcUser) (user : IrcUser) (self : Option ℕ)
    → OwnsSelf users self
    → OwnsSelf (users ++ user ∷ []) self
OwnsSelf-append users user none o = tt
OwnsSelf-append users user (some id) o = OwnsId-append users user id o

new_user-IsOwned :
    (chan : IrcChannel) (user : IrcUser)
    → user.id ≡ chan.next_id
    → IsOwned chan
    → IsOwned (record chan { users = chan.users ++ user ∷ []; next_id = chan.next_id + 1 })
new_user-IsOwned chan user e h = record {
  fresh =
      All-append (λ (u : IrcUser). u.id < chan.next_id + 1) chan.users (user ∷ [])
        (All-weaken chan.users chan.next_id h.fresh) (omega arith, tt);
  distinct = Distinct-append chan.users user (rw e h.fresh) h.distinct;
  self_owned = OwnsSelf-append chan.users user chan.self h.self_owned;
  has_self = h.has_self;
}

-- Adding a user keeps the channel well owned, and the user returned is one of its users.
pub add_user-IsOwned :
    (name : Bytes) (prefixes : List (ℕ × ℕ)) (chan : IrcChannel)
    → IsOwned chan
    → IsOwned (add_user name prefixes chan).0
      × OwnsId (add_user name prefixes chan).0.users (add_user name prefixes chan).1.id
unfolding add_user
add_user-IsOwned name prefixes chan h =
    let user = make_user chan.next_id name prefixes in
    let e = id-parse_name chan.next_id [] name prefixes in
    elim (Option-cases (find_user user.nick chan)) [
      | inl new ↦ rw (new, add_user) (new_user-IsOwned chan user e h, OwnsId-last chan.users user)
      | inr (old, found) ↦
          rw (found, add_user)
            (h, find_nick-OwnsId (nick_of user.nick) chan.users old (unfold find_user in found))
    ]

OwnsSelf-erase_nick :
    (self : Option ℕ) (users : List IrcUser) (user : IrcUser)
    → find_nick user.nick users ≡ some user
    → (elim self [ none ↦ false | some s ↦ user.id == s ]) ≡ false
    → OwnsSelf users self
    → OwnsSelf (erase_nick user.nick users) self
OwnsSelf-erase_nick none users user found ne o = tt
OwnsSelf-erase_nick (some s) users user found ne o =
    erase_nick-OwnsId user.nick users user s found (ground arith) o

-- Removing a user that was found by its nick keeps the channel well owned.
pub remove_user-IsOwned :
    (user : IrcUser) (chan : IrcChannel)
    → find_nick user.nick chan.users ≡ some user
    → IsOwned chan
    → IsOwned (remove_user user chan)
unfolding remove_user
remove_user-IsOwned user chan found h = elim (Bool-cases (is_self user.id chan)) [
  | inl self ↦
      simp (found, self, remove_user)
        (record {
          fresh =
              erase_nick-All (λ (u : IrcUser). u.id < chan.next_id) user.nick chan.users h.fresh;
          distinct = erase_nick-Distinct user.nick chan.users h.distinct;
          self_owned = tt;
          has_self = tt;
        })
  | inr other ↦
      simp (found, other, remove_user)
        (record {
          fresh =
              erase_nick-All (λ (u : IrcUser). u.id < chan.next_id) user.nick chan.users h.fresh;
          distinct = erase_nick-Distinct user.nick chan.users h.distinct;
          self_owned = OwnsSelf-erase_nick chan.self chan.users user found other h.self_owned;
          has_self = h.has_self;
        })
]

find_nick-nick :
    (nick : Bytes) (users : List IrcUser) (user : IrcUser)
    → find_nick nick users ≡ some user
    → user.nick ≡ nick
unfolding find_nick
find_nick-nick nick [] user found = cc
find_nick-nick nick (u ∷ users) user found = elim (Bool-cases (eq_bytes u.nick nick)) [
  | inl same ↦ ground (arith, eq_bytes_iff u.nick nick)
  | inr other ↦ find_nick-nick nick users user (rw other at found)
]

-- `find_user` finds a user by the nick that the user has, so it can be found again.
pub find_nick_again :
    (nick : Bytes) (users : List IrcUser) (user : IrcUser)
    → find_nick nick users ≡ some user
    → find_nick user.nick users ≡ some user
unfolding find_nick
find_nick_again nick [] user found = cc
find_nick_again nick (u ∷ users) user found = elim (Bool-cases (eq_bytes u.nick nick)) [
  | inl same ↦ ground (arith, eq_bytes_refl u.nick)
  | inr other ↦
      let ih = find_nick_again nick users user (rw other at found) in
      let self_nick = find_nick-nick nick users user (rw other at found) in
      rw self_nick (rw other (rw (← self_nick) ih))
]

HasSelf-of :
    (pointer : Option ℕ) (users : List IrcUser) (self : IrcUser)
    → (elim pointer [ none ↦ none | some id ↦ deref id users ]) ≡ some self
    → HasSelf true pointer
HasSelf-of none users self e = cc
HasSelf-of (some id) users self e = tt

-- The channel joined, where the pointer to oneself is set, and left.
pub joined-IsOwned :
    (chan : IrcChannel) (self : IrcUser)
    → get_self chan ≡ some self
    → IsOwned chan
    → IsOwned (record chan { joined = true })
unfolding get_self
joined-IsOwned chan self e h = record {
  fresh = h.fresh;
  distinct = h.distinct;
  self_owned = h.self_owned;
  has_self = HasSelf-of chan.self chan.users self e;
}

pub unjoin-IsOwned : (chan : IrcChannel) → IsOwned chan → IsOwned (record chan { joined = false })
unjoin-IsOwned chan h = record {
  fresh = h.fresh;
  distinct = h.distinct;
  self_owned = h.self_owned;
  has_self = tt;
}

-- The channel without a user, and not joined any more if that was oneself.
pub kicked-IsOwned :
    (self : Bool) (user : IrcUser) (chan : IrcChannel)
    → find_nick user.nick chan.users ≡ some user
    → IsOwned chan
    → IsOwned (remove_user user (if self then record chan { joined = false } else chan))
kicked-IsOwned true user chan found h =
    remove_user-IsOwned user (record chan { joined = false }) found (unjoin-IsOwned chan h)
kicked-IsOwned false user chan found h = remove_user-IsOwned user chan found h
