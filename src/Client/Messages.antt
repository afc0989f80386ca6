-- ===== src/Client/Messages.antt =====
-- `send_channel_message` and `send_private_message` of src/irc/irc_client.cpp.
pub mod Bounds
use biboumi.Base.{
  ℕ, zero, suc, ◌+◌, ◌-◌, ◌%◌, ◌^◌, Bool, true, false, Option, none, some, List, [], ◌∷◌, ◌++◌,
  if◌then◌else◌, Bytes, codes, length, take, drop, set_insert,
}
use biboumi.Irc.Channel.{IrcChannel}
use biboumi.Utils.Strings.{cut}
use biboumi.Client.Channels.{get_channel}
use biboumi.Client.Send.{send_irc_message, send_command, command}
use biboumi.World.{MessageCallback, IrcClient, World, with_client}

-- What a line of 512 bytes has around the text: the nick, ten bytes for the user name, 63 for the
-- host, `:!@ PRIVMSG `, the name of the channel, ` :` and the end of the line.
abbrev pub around_text : Bytes → Bytes → ℕ
around_text nick chan_name = length nick + 10 + 63 + 12 + length chan_name + 4

-- A `size_t` of 64 bits.
unfoldable pub line_size : Bytes → Bytes → ℕ
line_size nick chan_name = (512 + 2 ^ 64 - around_text nick chan_name) % 2 ^ 64

abbrev pub privmsg : Bytes → MessageCallback → Bytes → World → World
privmsg chan_name cb line w =
    send_irc_message (command (codes "PRIVMSG") (chan_name ∷ line ∷ [])) cb true w

unfoldable pub send_lines : Bytes → MessageCallback → List Bytes → World → World
send_lines chan_name cb [] w = w
send_lines chan_name cb (line ∷ lines) w =
    send_lines chan_name cb lines (privmsg chan_name cb line w)

abbrev send_cut : Bytes → MessageCallback → Option (List Bytes) → World → Option (World × Bool)
send_cut chan_name cb none w = none
send_cut chan_name cb (some lines) w = some (send_lines chan_name cb lines w, true)

-- `none` is the loop of `cut` that does not end.
unfoldable pub send_channel_message :
    Bytes → Bytes → MessageCallback → World → Option (World × Bool)
unfolding line_size send_lines
send_channel_message chan_name body cb w =
    let (chan, w') = get_channel chan_name w in
    if chan.joined
    then send_cut chan_name cb (cut body (line_size w'.client.current_nick chan_name)) w'
    else some (w', false)

-- The loop over the parts of 400 bytes; a part has a byte at least, so the length of the text is
-- rounds enough.
unfoldable pub parts_of : ℕ → Bytes → List Bytes
parts_of zero body = []
parts_of (suc fuel) [] = []
parts_of (suc fuel) (c ∷ body) = take 400 (c ∷ body) ∷ parts_of fuel (drop 400 (c ∷ body))

unfoldable pub send_parts : Bytes → Bytes → List Bytes → World → World
send_parts type username [] w = w
send_parts type username (part ∷ parts) w =
    send_parts type username parts (send_command type (username ∷ part ∷ []) w)

unfoldable pub send_private_message : Bytes → Bytes → Bytes → World → World
unfolding parts_of send_parts
send_private_message username body type w =
    with_client
      (λ c. record c {
        nicks_to_treat_as_private = set_insert username c.nicks_to_treat_as_private;
      })
      (send_parts type username (parts_of (length body) body) w)
