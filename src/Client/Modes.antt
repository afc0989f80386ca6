-- ===== src/Client/Modes.antt =====
-- `on_isupport_message` and `on_mode` of src/irc/irc_client.cpp.
pub mod Owned
use biboumi.Base.{
  ℕ, zero, suc, ◌+◌, ◌<◌, ◌-◌, Bool, true, false, not, ◌&&◌, ◌||◌, Option, none, some, List, [],
  ◌∷◌, ◌++◌, ltb, leb, ◌==◌, if◌then◌else◌, Bytes, codes, is_empty, has_char, starts_with, length,
  get_elem?, take, drop, insert, nat_eq,
}
use biboumi.Irc.Channel.{IrcChannel, find_user, update_user, deref}
use biboumi.Irc.Iid.{Iid, channel_iid}
use biboumi.Irc.Message.{IrcMessage}
use biboumi.Irc.User.{IrcUser, nick_of, add_mode, remove_mode, get_most_significant_mode}
use biboumi.Utils.Strings.{tolower, split}
use biboumi.Bridge.Outgoing.{send_bridge_message, send_affiliation_role_change}
use biboumi.Client.Channels.{get_channel, put_channel, is_channel_joined}
use biboumi.Client.Errors.{on_user_mode}
use biboumi.Client.Texts.{Handler}
use biboumi.World.{IrcClient, World, Outcome, ok, thrown, fault, ◌>>=◌, arg, with_client}

-- `resize(4)`
unfoldable pub resize4 : List Bytes → List Bytes
resize4 modes = take 4 (modes ++ ([] ∷ [] ∷ [] ∷ [] ∷ []))

-- `token.substr(11)`, which throws on a token of ten bytes. (The name has ten bytes.)
unfoldable pub set_chanmodes : Bytes → World → Outcome World
unfolding resize4
set_chanmodes token w =
    if ltb (length token) 11
    then thrown w
    else ok
        (with_client (λ c. record c { chanmodes = resize4 (split (drop 11 token) b',' true) }) w)

-- What stands behind the first `)`.
unfoldable pub after_paren : Bytes → Bytes
after_paren [] = []
after_paren (c ∷ s) = if c == b')' then s else after_paren s

-- The loop over the modes, from the ninth byte, and their signs, behind the `)`.
unfoldable pub read_prefixes : Bytes → Bytes → IrcClient → IrcClient
read_prefixes [] signs c = c
read_prefixes (mode ∷ modes) [] c = c
read_prefixes (mode ∷ modes) (sign ∷ signs) c =
    if mode == b')'
    then c
    else read_prefixes modes signs (record c {
      sorted_user_modes = c.sorted_user_modes ++ mode ∷ [];
      prefix_to_mode = insert sign mode c.prefix_to_mode;
    })

unfoldable pub on_isupport_token : Bytes → World → Outcome World
unfolding set_chanmodes after_paren read_prefixes
on_isupport_token token w =
    if starts_with (codes "CHANMODES=") token
    then set_chanmodes token w
    else if starts_with (codes "PREFIX=") token
    then ok (with_client (read_prefixes (drop 8 token) (after_paren (drop 9 token))) w)
    else if starts_with (codes "CHANTYPES=") token
    then ok (with_client (λ c. record c { chantypes = drop 10 token }) w)
    else ok w

unfoldable pub on_isupport_tokens : List Bytes → World → Outcome World
unfolding on_isupport_token
on_isupport_tokens [] w = ok w
on_isupport_tokens (token ∷ tokens) w = do
  w' ← on_isupport_token token w
  on_isupport_tokens tokens w'

unfoldable pub on_isupport_message : Handler
unfolding on_isupport_tokens
on_isupport_message m w = on_isupport_tokens (drop 1 m.arguments) w

-- The index of the list of `chanmodes` that holds the mode; 4 if none of the four does.
unfoldable pub chanmode_index : ℕ → List Bytes → ℕ
chanmode_index c [] = 0
chanmode_index c (modes ∷ lists) = if has_char c modes then 0 else suc (chanmode_index c lists)

abbrev is_user_mode : ℕ → List (ℕ × ℕ) → Bool
is_user_mode c [] = false
is_user_mode c ((sign, mode) ∷ m) = mode == c || is_user_mode c m

unfoldable pub mode_type : ℕ → IrcClient → ℕ
unfolding chanmode_index
mode_type c client =
    if chanmode_index c client.chanmodes == 4 && is_user_mode c client.prefix_to_mode
    then 1
    else chanmode_index c client.chanmodes

-- Whether the mode takes an argument: types A, B, and C when it is added.
unfoldable pub uses_argument : ℕ → Bool → Bool
uses_argument type add = type == 0 || type == 1 || (type == 2 && add)

-- The variables of the loop: the users of the channel, and the users that were changed.
pub record ModeLoop : Type 0 where
  pub add : Bool
  pub arg_pos : ℕ
  pub chan : IrcChannel
  pub modified_users : List ℕ

abbrev add_modified : ℕ → List ℕ → List ℕ
add_modified id ids = if has_char id ids then ids else ids ++ id ∷ []

unfoldable pub change_mode : ℕ → IrcUser → ModeLoop → ModeLoop
change_mode c user s = record s {
  arg_pos = s.arg_pos + 1;
  chan = record s.chan {
    users = update_user user.id (if s.add then add_mode c else remove_mode c) s.chan.users;
  };
  modified_users = add_modified user.id s.modified_users;
}

-- The state when the loop ends, and whether it ended by the early return, at a nick that is not in
-- the channel.
unfoldable pub apply_modes : Bytes → List Bytes → IrcClient → ModeLoop → ModeLoop × Bool
unfolding mode_type uses_argument change_mode
apply_modes [] args client s = (s, true)
apply_modes (c ∷ modes) args client s =
    let plus = apply_modes modes args client (record s { add = true }) in
    let minus = apply_modes modes args client (record s { add = false }) in
    let without = apply_modes modes args client s in
    let changed : ModeLoop × Bool = elim (get_elem? args s.arg_pos) [
      | none ↦ apply_modes modes args client s
      | some target ↦ elim (find_user target s.chan) [
        | none ↦ (s, false)
        | some user ↦ apply_modes modes args client (change_mode c user s)
      ]
    ] in
    if c == b'+'
    then plus
    else if c == b'-'
    then minus
    else if uses_argument (mode_type c client) s.add
    then changed
    else without

unfoldable pub notify_modified : Iid → List ℕ → List IrcUser → World → World
notify_modified iid [] users w = w
notify_modified iid (id ∷ ids) users w = notify_modified iid ids users (elim (deref id users) [
  | none ↦ w
  | some u ↦
      send_affiliation_role_change iid u.nick
        (get_most_significant_mode u w.client.sorted_user_modes) w
])

-- The arguments behind the first, which are not empty, with a space before each but the first.
unfoldable pub mode_arguments : List Bytes → Bytes
mode_arguments [] = []
mode_arguments ([] ∷ args) = mode_arguments args
mode_arguments ((c ∷ arg) ∷ args) = b' ' ∷ ((c ∷ arg) ++ mode_arguments args)

abbrev first_mode_arguments : List Bytes → Bytes
first_mode_arguments [] = []
first_mode_arguments (arg ∷ args) = arg ++ mode_arguments args

unfoldable pub announce_mode : IrcMessage → Iid → World → World
unfolding mode_arguments
announce_mode m iid w =
    send_bridge_message iid []
      (codes "Mode "
        ++ (iid.local
            ++ (codes " ["
                ++ (first_mode_arguments (drop 1 m.arguments)
                    ++ (codes "] by " ++ nick_of m.prefix)))))
      true w

abbrev finish_modes : Iid → ModeLoop × Bool → World → World
finish_modes iid (s, ended) w =
    let kept = put_channel (tolower iid.local) s.chan w in
    if ended then notify_modified iid s.modified_users s.chan.users kept else kept

unfoldable pub on_channel_mode : Handler
unfolding announce_mode apply_modes notify_modified
on_channel_mode m w = do
  target ← arg m 0
  let iid = channel_iid target w.client.hostname
  let (joined, w') = is_channel_joined iid.local w
  let told = announce_mode m iid w'
  let (chan, w'') = get_channel iid.local told
  modes ← arg m 1
  let start : ModeLoop = record { add = true; arg_pos = 2; chan = chan; modified_users = [] }
  ok (finish_modes iid (apply_modes modes m.arguments w''.client start) w'')

abbrev is_channel_name : Bytes → List ℕ → Bool
is_channel_name [] chantypes = has_char 0 chantypes
is_channel_name (c ∷ target) chantypes = has_char c chantypes

unfoldable pub on_mode : Handler
unfolding on_channel_mode
on_mode m w = do
  target ← arg m 0
  if is_channel_name target w.client.chantypes then on_channel_mode m w else on_user_mode m w
