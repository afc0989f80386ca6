-- ===== src/Client/Modes/Owned.antt =====
-- The handlers of modes and the ownership of the channels.
use biboumi.Base.{
  ℕ, Bool, true, false, List, [], ◌∷◌, ◌≡◌, refl, Bytes, codes, Option-cases, inl, inr, ltb, length,
  starts_with, ◌==◌, drop, if◌then◌else◌, get_elem?,
}
use biboumi.Irc.Channel.{find_user, deref}
use biboumi.Irc.Channel.Ownership.{IsOwned}
use biboumi.Irc.Channel.Ownership.Pointers.{update_user-IsOwned}
use biboumi.Irc.Iid.{Iid, channel_iid}
use biboumi.Irc.Message.{IrcMessage}
use biboumi.Irc.User.{IrcUser, add_mode, remove_mode}
use biboumi.Utils.Strings.{tolower}
use biboumi.Bridge.Outgoing.{send_affiliation_role_change}
use biboumi.Client.Channels.{get_channel, is_channel_joined}
use biboumi.Client.Membership.Owned.{
  Owned, Keeps, Keeps-arg, Keeps-if, if-keeps, get_channel-Owned, put_channel-Owned,
}
use biboumi.Client.Errors.Owned.{Keeps-then, on_user_mode-Owned}
use biboumi.Client.Texts.Owned.{emit_all-Owned, send_bridge_message-Owned}
use biboumi.Client.Modes.{
  set_chanmodes, on_isupport_token, on_isupport_tokens, on_isupport_message, uses_argument,
  mode_type, ModeLoop, change_mode, apply_modes, notify_modified, announce_mode, finish_modes,
  on_channel_mode, is_channel_name, on_mode, read_prefixes, after_paren,
}
use biboumi.World.{IrcClient, World, ok, thrown}

channels-read_prefixes :
    (modes signs : Bytes) (c : IrcClient) → (read_prefixes modes signs c).channels ≡ c.channels
unfolding read_prefixes
channels-read_prefixes [] signs c = refl
channels-read_prefixes (m ∷ modes) [] c = refl
channels-read_prefixes (m ∷ modes) (s ∷ signs) c =
    if-keeps (m == b')') (λ (d : IrcClient). d.channels ≡ c.channels) refl
      (channels-read_prefixes modes signs _)

token-Owned : (token : Bytes) (w : World) → Owned w → Keeps Owned (on_isupport_token token w)
unfolding on_isupport_token set_chanmodes
token-Owned token w o =
    Keeps-if (starts_with (codes "CHANMODES=") token) _ _
      (Keeps-if (ltb (length token) 11) (thrown w) _ o (record { all = o.all }))
      (Keeps-if (starts_with (codes "PREFIX=") token) _ _
        (record {
          all =
              rw (channels-read_prefixes (drop 8 token) (after_paren (drop 9 token)) w.client)
                o.all;
        })
        (Keeps-if (starts_with (codes "CHANTYPES=") token) _ (ok w) (record { all = o.all }) o))

tokens-Owned :
    (tokens : List Bytes) (w : World) → Owned w → Keeps Owned (on_isupport_tokens tokens w)
unfolding on_isupport_tokens
tokens-Owned [] w o = o
tokens-Owned (token ∷ tokens) w o =
    Keeps-then (on_isupport_token token w) _ (token-Owned token w o)
      λ w' o'. tokens-Owned tokens w' o'

add_mode-id :
    (m : ℕ) (add : Bool) (u : IrcUser) → ((if add then add_mode m else remove_mode m) u).id ≡ u.id
unfolding add_mode remove_mode
add_mode-id m true u = refl
add_mode-id m false u = refl

apply_modes-IsOwned :
    (modes : Bytes) (args : List Bytes) (client : IrcClient) (s : ModeLoop)
    → IsOwned s.chan
    → IsOwned (apply_modes modes args client s).0.chan
unfolding apply_modes change_mode
apply_modes-IsOwned [] args client s h = h
apply_modes-IsOwned (c ∷ modes) args client s h =
    let P = λ (r : ModeLoop × Bool). IsOwned r.0.chan in
    if-keeps (c == b'+') P (apply_modes-IsOwned modes args client _ h) (
      if-keeps (c == b'-') P (apply_modes-IsOwned modes args client _ h) (
        if-keeps (uses_argument (mode_type c client) s.add) P
          (elim (Option-cases (get_elem? args s.arg_pos)) [
            | inl missing ↦ rw missing (apply_modes-IsOwned modes args client s h)
            | inr (target, found) ↦ rw found (elim (Option-cases (find_user target s.chan)) [
              | inl absent ↦ rw absent h
              | inr (user, there) ↦ rw there (
                  apply_modes-IsOwned modes args client (change_mode c user s)
                    (update_user-IsOwned user.id _ (add_mode-id c s.add) s.chan h))
            ])
          ])
          (apply_modes-IsOwned modes args client s h)))

notify_modified-Owned :
    (iid : Iid) (ids : List ℕ) (users : List IrcUser) (w : World)
    → Owned w
    → Owned (notify_modified iid ids users w)
unfolding notify_modified send_affiliation_role_change
notify_modified-Owned iid [] users w o = o
notify_modified-Owned iid (id ∷ ids) users w o = elim (Option-cases (deref id users)) [
  | inl gone ↦ rw gone (notify_modified-Owned iid ids users w o)
  | inr (u, there) ↦ rw there (notify_modified-Owned iid ids users _ (emit_all-Owned _ _ w o))
]

finish_modes-Owned :
    (iid : Iid) (s : ModeLoop) (ended : Bool) (w : World)
    → IsOwned s.chan
    → Owned w
    → Owned (finish_modes iid (s, ended) w)
finish_modes-Owned iid s true w h o =
    notify_modified-Owned iid s.modified_users s.chan.users _
      (put_channel-Owned (tolower iid.local) s.chan w h o)
finish_modes-Owned iid s false w h o = put_channel-Owned (tolower iid.local) s.chan w h o

on_channel_mode-Owned : (m : IrcMessage) (w : World) → Owned w → Keeps Owned (on_channel_mode m w)
unfolding on_channel_mode announce_mode is_channel_joined
on_channel_mode-Owned m w o = Keeps-arg Owned m 0 _ λ target.
    let iid = channel_iid target w.client.hostname in
    let (h, o') = get_channel-Owned iid.local w o in
    let w' = (get_channel iid.local w).1 in
    let told = announce_mode m iid w' in
    let (h', o'') =
      get_channel-Owned iid.local told (send_bridge_message-Owned iid [] _ true w' o') in
    let (chan, w'') = get_channel iid.local told in
    Keeps-arg Owned m 1 _ λ modes.
      let start : ModeLoop = record { add = true; arg_pos = 2; chan = chan; modified_users = [] } in
      let r = apply_modes modes m.arguments w''.client start in
      finish_modes-Owned iid r.0 r.1 w'' (apply_modes-IsOwned modes m.arguments w''.client start h')
        o''

-- The announcement of the modes of the server, and a change of the modes of a channel or of the
-- user, leave every channel well owned, unless they run into undefined behaviour.
pub modes-Owned :
    (m : IrcMessage) (w : World)
    → Owned w
    → Keeps Owned (on_isupport_message m w) × Keeps Owned (on_mode m w)
unfolding on_isupport_message on_mode
modes-Owned m w o = (
  tokens-Owned (drop 1 m.arguments) w o,
  Keeps-arg Owned m 0 _ λ target.
      Keeps-if (is_channel_name target w.client.chantypes) _ _ (on_channel_mode-Owned m w o)
        (on_user_mode-Owned m w o),
)
