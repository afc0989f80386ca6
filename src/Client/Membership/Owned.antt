-- ===== src/Client/Membership/Owned.antt =====
-- The ownership of the channels of the client, as a property of its state.
pub mod Steps
pub mod Names
use biboumi.Base.{
  ℕ, Bool, true, false, not, ◌||◌, Option, none, some, List, [], ◌∷◌, ◌≡◌, refl, sym, arith, Bytes,
  Option-cases, Bool-cases, inl, inr, All, eq_bytes, eq_bytes_iff, lookup, insert, erase, bytes_eq,
  lookup-insert, get_elem?, get_elem?-some, length, ◌<◌, if◌then◌else◌,
}
use mathlib.Core.Path.{subst}
use biboumi.Irc.Channel.{IrcChannel, empty_channel}
use biboumi.Irc.Channel.Ownership.{IsOwned, IsOwned-empty_channel}
use biboumi.Irc.Message.{IrcMessage}
use biboumi.Client.Channels.{find_channel, get_channel, put_channel, put_channels, erase_channel}
use biboumi.Client.Frame.{channels_of}
use biboumi.Utils.Strings.{tolower}
use biboumi.World.{IrcClient, World, Outcome, ok, thrown, fault, Fault, ◌>>=◌, arg}

abbrev pub AllOwned : List (Bytes × IrcChannel) → Type 0
AllOwned [] = Unit
AllOwned ((name, chan) ∷ channels) = IsOwned chan × AllOwned channels

-- In each channel of the client the pointer to oneself is good, and it is set if it is joined.
pub record Owned (w : World) : Type 0 where
  pub all : AllOwned (channels_of w)

-- A handler runs into no undefined behaviour, and the state that it leaves, when it ends or throws,
-- has the property.
abbrev pub Leaves : (World → Type 0) → Outcome World → Type 0
Leaves P (ok w) = P w
Leaves P (thrown w) = P w
Leaves P (fault e) = ⊥

-- The state that a handler leaves has the property, unless it runs into undefined behaviour.
abbrev pub Keeps : (World → Type 0) → Outcome World → Type 0
Keeps P (ok w) = P w
Keeps P (thrown w) = P w
Keeps P (fault e) = Unit

-- Reading an argument that is there, in front of the rest of a handler.
pub Leaves-arg :
    (P : World → Type 0) (m : IrcMessage) (i : ℕ) (f : Bytes → Outcome World)
    → i < length m.arguments
    → ((a : Bytes) → Leaves P (f a))
    → Leaves P (arg m i >>= f)
Leaves-arg P m i f lt h = let (a, found) = get_elem?-some m.arguments i lt in rw (found, arg) (h a)

pub Keeps-arg :
    (P : World → Type 0) (m : IrcMessage) (i : ℕ) (f : Bytes → Outcome World)
    → ((a : Bytes) → Keeps P (f a))
    → Keeps P (arg m i >>= f)
Keeps-arg P m i f h = elim (Option-cases (get_elem? m.arguments i)) [
  | inl missing ↦ rw (missing, arg) tt
  | inr (a, found) ↦ rw (found, arg) (h a)
]

pub Owned-if : (b : Bool) {x y : World} → Owned x → Owned y → Owned (if b then x else y)
Owned-if true ox oy = ox
Owned-if false ox oy = oy

pub Leaves-if :
    (b : Bool) (x y : Outcome World)
    → Leaves Owned x
    → Leaves Owned y
    → Leaves Owned (if b then x else y)
Leaves-if true x y ox oy = ox
Leaves-if false x y ox oy = oy

pub if-keeps {ℓ κ} :
    {A : Type ℓ} (b : Bool) (P : A → Type κ) {x y : A} → P x → P y → P (if b then x else y)
if-keeps true P px py = px
if-keeps false P px py = py

pub Keeps-if :
    (b : Bool) (x y : Outcome World)
    → Keeps Owned x
    → Keeps Owned y
    → Keeps Owned (if b then x else y)
Keeps-if true x y ox oy = ox
Keeps-if false x y ox oy = oy

pub insert-AllOwned :
    (name : Bytes) (chan : IrcChannel) (m : List (Bytes × IrcChannel))
    → IsOwned chan
    → AllOwned m
    → AllOwned (insert name chan m)
unfolding insert
insert-AllOwned name chan [] h a = (h, tt)
insert-AllOwned name chan ((n, c) ∷ m) h a = elim (Bool-cases (eq_bytes n name)) [
  | inl same ↦ rw same (h, a.1)
  | inr other ↦ rw other (a.0, insert-AllOwned name chan m h a.1)
]

pub erase-AllOwned :
    (name : Bytes) (m : List (Bytes × IrcChannel)) → AllOwned m → AllOwned (erase name m)
unfolding erase
erase-AllOwned name [] a = tt
erase-AllOwned name ((n, c) ∷ m) a = elim (Bool-cases (eq_bytes n name)) [
  | inl same ↦ rw same (erase-AllOwned name m a.1)
  | inr other ↦ rw other (a.0, erase-AllOwned name m a.1)
]

lookup-IsOwned :
    (name : Bytes) (chan : IrcChannel) (m : List (Bytes × IrcChannel))
    → lookup name m ≡ some chan
    → AllOwned m
    → IsOwned chan
unfolding lookup
lookup-IsOwned name chan [] e a = cc
lookup-IsOwned name chan ((n, c) ∷ m) e a = elim (Bool-cases (eq_bytes n name)) [
  | inl same ↦ (let e' : c ≡ chan = ground arith in subst IsOwned e' a.0)
  | inr other ↦ lookup-IsOwned name chan m (rw other at e) a.1
]

pub put_channel-Owned :
    (name : Bytes) (chan : IrcChannel) (w : World)
    → IsOwned chan
    → Owned w
    → Owned (put_channel name chan w)
unfolding put_channel
put_channel-Owned name chan w h o = record {
  all = insert-AllOwned name chan w.client.channels h o.all;
}

-- `get_channel` returns a channel that is well owned, whether it was there or is new.
pub get_channel-Owned :
    (name : Bytes) (w : World)
    → Owned w
    → IsOwned (get_channel name w).0 × Owned (get_channel name w).1
unfolding get_channel
get_channel-Owned name w o = elim (Option-cases (find_channel name w)) [
  | inl new ↦
      rw (new, get_channel)
        (
          IsOwned-empty_channel,
          put_channel-Owned (tolower name) empty_channel w IsOwned-empty_channel o,
        )
  | inr (chan, found) ↦
      rw (found, get_channel)
        (
          lookup-IsOwned (tolower name) chan w.client.channels (unfold find_channel in found) o.all,
          o,
        )
]

-- A step that leaves the channels alone keeps them well owned.
pub frame-Owned : (w w' : World) → channels_of w' ≡ channels_of w → Owned w → Owned w'
frame-Owned w w' e o = record { all = rw e o.all }
