-- ===== src/Client/Errors.antt =====
-- The handlers of src/irc/irc_client.cpp that report errors and the state of the user, and the
-- messages with no handler.
pub mod Owned
use biboumi.Base.{
  none, some, List, [], ◌∷◌, ◌++◌, if◌then◌else◌, Bytes, codes, length, get_elem?, drop, leb,
}
use biboumi.Irc.Channel.{IrcChannel}
use biboumi.Irc.Iid.{channel, channel_iid}
use biboumi.Irc.User.{nick_of}
use biboumi.Bridge.Outgoing.{
  send_xmpp_message, send_nickname_conflict_error, send_presence_error, send_xmpp_invitation,
}
use biboumi.Client.Send.{send_command}
use biboumi.Client.Texts.{Handler, optional, send_gateway_message}
use biboumi.World.{World, ok, ◌>>=◌, arg, with_client}

unfoldable pub on_own_host_received : Handler
on_own_host_received m w = do
  own_host ← arg m 1
  let w' = with_client (λ c. record c { own_host = own_host }) w
  ok (
      send_xmpp_message w.client.hostname m.prefix
        (elim (get_elem? m.arguments 2) [
          | some text ↦ own_host ++ (b' ' ∷ text)
          | none ↦ own_host ++ codes " is now your displayed host"
        ])
        w')

unfoldable pub on_erroneous_nickname : Handler
on_erroneous_nickname m w = do
  nick ← arg m 1
  ok (
      send_gateway_message
        (optional (codes "Erroneous nickname") (get_elem? m.arguments 2) ++ (codes ": " ++ nick))
        m.prefix w)

unfoldable pub on_generic_error : Handler
on_generic_error m w = do
  what ← arg m 1
  ok (
      send_gateway_message
        (what ++ (codes ": " ++ optional (codes "Unspecified error") (get_elem? m.arguments 2)))
        m.prefix w)

-- For each channel of the client.
unfoldable pub conflict_in : Bytes → List (Bytes × IrcChannel) → World → World
conflict_in nickname [] w = w
conflict_in nickname ((name, chan) ∷ channels) w =
    conflict_in nickname channels
      (send_nickname_conflict_error (channel_iid name w.client.hostname) nickname w)

unfoldable pub on_nickname_conflict : Handler
unfolding on_generic_error conflict_in
on_nickname_conflict m w = do
  nickname ← arg m 1
  w' ← on_generic_error m w
  ok (conflict_in nickname w'.client.channels w')

unfoldable pub too_fast_in : Bytes → Bytes → List (Bytes × IrcChannel) → World → World
too_fast_in nickname txt [] w = w
too_fast_in nickname txt ((name, chan) ∷ channels) w = too_fast_in nickname txt channels (
    send_presence_error (channel_iid name w.client.hostname) nickname (codes "cancel")
      (codes "not-acceptable") [] txt w)

unfoldable pub on_nickname_change_too_fast : Handler
unfolding on_generic_error too_fast_in
on_nickname_change_too_fast m w = do
  nickname ← arg m 1
  w' ← on_generic_error m w
  ok (too_fast_in nickname (optional [] (get_elem? m.arguments 2)) w'.client.channels w')

unfoldable pub on_useronchannel : Handler
on_useronchannel m w = do
  nick ← arg m 1
  text ← arg m 3
  chan ← arg m 2
  ok (send_gateway_message (nick ++ (b' ' ∷ (text ++ (b' ' ∷ chan)))) [] w)

unfoldable pub on_channel_bad_key : Handler
unfolding on_generic_error
on_channel_bad_key m w = do
  w' ← on_generic_error m w
  nickname ← arg m 0
  chan ← arg m 1
  ok (
      send_presence_error (record { local = chan; server_name = w.client.hostname; type = channel })
        nickname (codes "auth") (codes "not-authorized") [] (optional [] (get_elem? m.arguments 2))
        w')

unfoldable pub on_invite : Handler
on_invite m w = do
  chan ← arg m 1
  ok (send_xmpp_invitation (channel_iid chan w.client.hostname) (nick_of m.prefix) w)

unfoldable pub on_user_mode : Handler
on_user_mode m w = do
  target ← arg m 0
  modes ← arg m 1
  ok (
      send_xmpp_message w.client.hostname []
        (codes "User mode for " ++ (target ++ (codes " is [" ++ (modes ++ codes "]")))) w)

unfoldable pub send_pong_command : Handler
send_pong_command m w = do id ← arg m 0; ok (send_command (codes "PONG") (id ∷ []) w)

abbrev joined_by_space : List Bytes → Bytes
joined_by_space [] = []
joined_by_space (a ∷ []) = a
joined_by_space (a ∷ b ∷ args) = a ++ (b' ' ∷ joined_by_space (b ∷ args))

unfoldable pub on_unknown_message : Handler
on_unknown_message m w =
    if leb 2 (length m.arguments)
    then ok (send_xmpp_message w.client.hostname m.prefix (joined_by_space (drop 1 m.arguments)) w)
    else ok w
