-- ===== src/Irc/Channel/Ownership/Pointers.antt =====
-- Writing and reading through the pointers of a channel.
use biboumi.Base.{
  ℕ, ◌<◌, Bool, true, false, Option, none, some, List, [], ◌∷◌, ◌≡◌, ◌≢◌, arith, ◌==◌, All,
  Bool-cases, inl, inr, sym, ◌∙◌, nat_eq,
}
use mathlib.Core.Path.{subst}
use biboumi.Irc.User.{IrcUser}
use biboumi.Irc.Channel.{IrcChannel, deref, get_self, update_user}
use biboumi.Irc.Channel.Ownership.{OwnsId, OwnsSelf, HasSelf, Distinct, IsOwned}

-- Writing to a user through a pointer keeps its address.
module _ (id : ℕ) (f : IrcUser → IrcUser) (keeps : (u : IrcUser) → (f u).id ≡ u.id) where
  update_user-All :
      (P : ℕ → Type 0) (users : List IrcUser)
      → All (λ (u : IrcUser). P u.id) users
      → All (λ (u : IrcUser). P u.id) (update_user id f users)
  unfolding update_user
  update_user-All P [] a = tt
  update_user-All P (u ∷ users) a = elim (Bool-cases (u.id == id)) [
    | inl same ↦ simp same (subst P (sym (keeps u)) a.0, a.1)
    | inr other ↦ simp other (a.0, update_user-All P users a.1)
  ]

  update_user-Distinct : (users : List IrcUser) → Distinct users → Distinct (update_user id f users)
  unfolding update_user
  update_user-Distinct [] d = tt
  update_user-Distinct (u ∷ users) d = elim (Bool-cases (u.id == id)) [
    | inl same ↦
        simp same (subst (λ n. All (λ (v : IrcUser). v.id ≢ n) users) (sym (keeps u)) d.0, d.1)
    | inr other ↦
        simp other (update_user-All (λ n. n ≢ u.id) users d.0, update_user-Distinct users d.1)
  ]

  update_user-OwnsId :
      (users : List IrcUser) (n : ℕ) → OwnsId users n → OwnsId (update_user id f users) n
  unfolding update_user
  update_user-OwnsId [] n o = o
  update_user-OwnsId (u ∷ users) n (inl here) = elim (Bool-cases (u.id == id)) [
    | inl same ↦ simp same (inl (keeps u ∙ here))
    | inr other ↦ simp other (inl here)
  ]
  update_user-OwnsId (u ∷ users) n (inr there) = elim (Bool-cases (u.id == id)) [
    | inl same ↦ simp same (inr there)
    | inr other ↦ simp other (inr (update_user-OwnsId users n there))
  ]

  update_user-OwnsSelf :
      (users : List IrcUser) (self : Option ℕ)
      → OwnsSelf users self
      → OwnsSelf (update_user id f users) self
  update_user-OwnsSelf users none o = tt
  update_user-OwnsSelf users (some n) o = update_user-OwnsId users n o

  pub update_user-IsOwned :
      (chan : IrcChannel)
      → IsOwned chan
      → IsOwned (record chan { users = update_user id f chan.users })
  update_user-IsOwned chan h = record {
    fresh = update_user-All (λ n. n < chan.next_id) chan.users h.fresh;
    distinct = update_user-Distinct chan.users h.distinct;
    self_owned = update_user-OwnsSelf chan.users chan.self h.self_owned;
    has_self = h.has_self;
  }

-- The pointer to oneself can be read.
deref-OwnsId :
    (id : ℕ) (users : List IrcUser)
    → OwnsId users id
    → (user : IrcUser) × (deref id users ≡ some user) × (user.id ≡ id)
unfolding deref
deref-OwnsId id [] o = absurd o
deref-OwnsId id (u ∷ users) (inl here) = (u, ground arith, here)
deref-OwnsId id (u ∷ users) (inr there) = elim (Bool-cases (u.id == id)) [
  | inl same ↦ (u, rw same, ground arith)
  | inr other ↦ let (user, e, i) = deref-OwnsId id users there in (user, rw other e, i)
]

self_there :
    (self : Option ℕ) (joined : Bool) (users : List IrcUser)
    → joined ≡ true
    → HasSelf joined self
    → OwnsSelf users self
    → (user : IrcUser) × ((elim self [ none ↦ none | some id ↦ deref id users ]) ≡ some user)
self_there none false users j h o = cc
self_there none true users j h o = absurd h
self_there (some id) joined users j h o = let (user, e, i) = deref-OwnsId id users o in (user, e)

-- In a joined channel the pointer to oneself is not null and points to a user of the channel.
pub get_self_joined :
    (chan : IrcChannel)
    → IsOwned chan
    → chan.joined ≡ true
    → (user : IrcUser) × (get_self chan ≡ some user)
unfolding get_self
get_self_joined chan h j = self_there chan.self chan.joined chan.users j h.has_self h.self_owned
