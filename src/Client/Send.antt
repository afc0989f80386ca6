-- ===== src/Client/Send.antt =====
-- `actual_send`, `send_message` and the commands of src/irc/irc_client.cpp, and the timer of the
-- bucket, which sends what was delayed.
pub mod Queue
use biboumi.Base.{
  ℕ, zero, suc, ◌+◌, ◌-◌, Bool, true, false, not, ◌&&◌, ◌||◌, Option, none, some, List, [], ◌∷◌,
  ◌++◌, ltb, ◌==◌, if◌then◌else◌, Bytes, codes, starts_with, length, get_elem?, take, drop,
}
use biboumi.Irc.Iid.{Iid, to_string, to_tuple}
use biboumi.Irc.Message.{IrcMessage, serialize}
use biboumi.Utils.TokensBucket.{TokensBucket, Limit, use_token, add_token, set_limit}
use biboumi.Bridge.Resources.{resources_of_chan}
use biboumi.World.{
  MessageCallback, no_callback, mirror_to_all_resources, IrcClient, XmppCall, muc_message, Bridge,
  World, with_client, emit,
}

abbrev pub last_is : ℕ → Bytes → Bool
last_is c [] = false
last_is c (x ∷ []) = x == c
last_is c (x ∷ y ∷ s) = last_is c (y ∷ s)

-- The text that is shown for a line that was sent: `\01ACTION …\01` is `/me …`.
unfoldable pub mirrored_text : Bytes → Bytes
mirrored_text line =
    if ltb 8 (length line) && starts_with (codes "\u{1}ACTION") line && last_is 1 line
    then codes "/me " ++ take (length line - 9) (drop 8 line)
    else line

-- `this->user_jid + "/" + resource`
abbrev pub full_jid : Bridge → Bytes → Bytes
full_jid b resource = b.user_jid ++ (b'/' ∷ resource)

unfoldable pub mirror : Iid → Bytes → List Bytes → World → World
mirror iid text [] w = w
mirror iid text (resource ∷ resources) w = mirror iid text resources (
    emit
      (muc_message (to_string w.bridge.fixed_irc_server iid) w.client.current_nick
        (mirrored_text text) (full_jid w.bridge resource))
      w)

-- A message with a callback is a PRIVMSG, which has two arguments.
abbrev second_argument : IrcMessage → Bytes
second_argument m = elim (get_elem? m.arguments 1) [ none ↦ [] | some text ↦ text ]

unfoldable pub run_callback : MessageCallback → IrcMessage → World → World
unfolding mirror
run_callback no_callback m w = w
run_callback (mirror_to_all_resources iid id) m w =
    mirror iid (second_argument m) (resources_of_chan (to_tuple iid) w.bridge) w

unfoldable pub send_data : Bytes → World → World
send_data text w = with_client (λ c. record c { sent = c.sent ++ text ∷ [] }) w

unfoldable pub actual_send : IrcMessage → MessageCallback → World → World
unfolding run_callback send_data
actual_send m callback w = run_callback callback m (send_data (serialize m) w)

abbrev pub set_bucket : TokensBucket → World → World
set_bucket b w = with_client (λ c. record c { tokens_bucket = b }) w

unfoldable pub enqueue : IrcMessage → MessageCallback → World → World
enqueue m callback w =
    with_client (λ c. record c { message_queue = c.message_queue ++ (m, callback) ∷ [] }) w

unfoldable pub send_irc_message : IrcMessage → MessageCallback → Bool → World → World
unfolding enqueue
send_irc_message m callback throttle w =
    let (bucket, token) = use_token w.client.tokens_bucket in
    if token || not throttle
    then actual_send m callback (set_bucket bucket w)
    else enqueue m callback (set_bucket bucket w)

-- The callback of the bucket: it sends the first message that was delayed, or allows a token.
unfoldable pub send_first : List (IrcMessage × MessageCallback) → World → World × Bool
send_first [] w = (w, true)
send_first ((m, cb) ∷ queue) w =
    (with_client (λ c. record c { message_queue = queue }) (actual_send m cb w), false)

unfoldable pub send_delayed : World → World × Bool
unfolding send_first
send_delayed w = send_first w.client.message_queue w

-- The timed event of the bucket, once a second.
unfoldable pub on_bucket_timer : World → World
on_bucket_timer w =
    let (bucket, w') = add_token send_delayed w.client.tokens_bucket w in set_bucket bucket w'

unfoldable pub send_raw : Bytes → World → World
unfolding send_data
send_raw txt w = send_data (txt ++ (b'\r' ∷ b'\n' ∷ [])) w

abbrev pub command : Bytes → List Bytes → IrcMessage
command name args = record { prefix = []; command = name; arguments = args }

abbrev pub send_command : Bytes → List Bytes → World → World
send_command name args w = send_irc_message (command name args) no_callback true w

unfoldable pub send_user_command : Bytes → Bytes → World → World
send_user_command username realname w =
    send_command (codes "USER")
      (username ∷ w.client.user_hostname ∷ codes "ignored" ∷ realname ∷ []) w

unfoldable pub send_nick_command : Bytes → World → World
send_nick_command nick w = send_command (codes "NICK") (nick ∷ []) w

unfoldable pub send_pass_command : Bytes → World → World
send_pass_command password w = send_command (codes "PASS") (password ∷ []) w

unfoldable pub send_webirc_command : Bytes → Bytes → World → World
send_webirc_command password user_ip w =
    send_command (codes "WEBIRC")
      (password ∷ codes "biboumi" ∷ w.client.user_hostname ∷ user_ip ∷ []) w

unfoldable pub send_kick_command : Bytes → Bytes → Bytes → World → World
send_kick_command chan_name target reason w =
    send_command (codes "KICK") (chan_name ∷ target ∷ reason ∷ []) w

unfoldable pub send_list_command : World → World
send_list_command w = send_command (codes "LIST") (codes "*" ∷ []) w

unfoldable pub send_invitation : Bytes → Bytes → World → World
send_invitation chan_name nick w = send_command (codes "INVITE") (nick ∷ chan_name ∷ []) w

unfoldable pub send_topic_command : Bytes → Bytes → World → World
send_topic_command chan_name topic w = send_command (codes "TOPIC") (chan_name ∷ topic ∷ []) w

-- QUIT does not wait for a token.
unfoldable pub send_quit_command : Bytes → World → World
unfolding send_irc_message
send_quit_command reason w =
    send_irc_message (command (codes "QUIT") (reason ∷ [])) no_callback false w

unfoldable pub send_part_command : Bytes → Bytes → World → World
send_part_command chan_name status_message w =
    send_command (codes "PART") (chan_name ∷ status_message ∷ []) w

unfoldable pub send_mode_command : Bytes → List Bytes → World → World
send_mode_command chan_name arguments w = send_command (codes "MODE") (chan_name ∷ arguments) w

unfoldable pub send_ping_command : World → World
send_ping_command w = send_command (codes "PING") (codes "biboumi" ∷ []) w

unfoldable pub set_throttle_limit : Limit → World → World
set_throttle_limit limit w = set_bucket (set_limit limit w.client.tokens_bucket) w
