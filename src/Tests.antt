-- ===== src/Tests.antt =====
-- Concrete inputs for the theorems: each is applied at one of them.
pub mod Xmpp
pub mod Requests
pub mod Utils
use biboumi.Base.{
  ℕ, ◌+◌, ◌<◌, ◌≡◌, refl, arith, Bool, true, false, not, ◌&&◌, ◌||◌, none, some, List, [], ◌∷◌,
  ◌++◌, inl, inr, Bytes, codes, All, eq_bytes, has_char, ◌==◌,
}
use biboumi.Utils.Strings.{split, cut, cut_loop, get_next_codepoint_size}
use biboumi.Utils.Strings.Split.{split-Lacks, Lacks}
use biboumi.Utils.Strings.Cut.{cut_total, cut_diverges, IsCut}
use biboumi.Utils.TokensBucket.{TokensBucket, negative, at_most, use_token, add_token, set_limit}
use biboumi.Utils.TokensBucket.Bounds.{Within, tokens_bucket-Within, add_token_above}
use biboumi.Utils.Encoding.{keeps4}
use biboumi.Utils.Encoding.Utf8.{keeps4-eq-true}
use biboumi.Irc.Message.{IrcMessage, parse, serialize_body, serialize, is_space, is_trailing}
use biboumi.Irc.Message.RoundTrip.{IsMessage, middle, trailing, holds_space, parse-serialize_body}
use biboumi.Irc.User.{IrcUser, add_mode, remove_mode, get_most_significant_mode}
use biboumi.Irc.User.Modes.{has_char-modes, get_most_significant_mode-IsFirst, IsFirst}
use biboumi.Irc.Channel.{IrcChannel, add_user, remove_user, find_nick, find_user, get_self}
use biboumi.Irc.Channel.Ownership.{IsOwned, OwnsId, add_user-IsOwned, remove_user-IsOwned}
use biboumi.Irc.Iid.{Iid, channel, to_tuple}
use biboumi.Bridge.Resources.{is_resource_in_chan, add_resource_to_chan, remove_resource_from_chan}
use biboumi.Bridge.Resources.Laws.{
  same_chan, is_resource_in_chan-add_resource_to_chan,
  is_resource_in_chan-remove_resource_from_chan, IsSameElsewhere,
}
use biboumi.Bridge.Outgoing.{send_muc_leave}
use biboumi.Bridge.Outgoing.Leave.{send_muc_leave-forgets}
use biboumi.Client.Send.{send_irc_message, on_bucket_timer, set_throttle_limit}
use biboumi.Client.Send.Queue.{
  pending, Orderly, send_irc_message-pending, on_bucket_timer-pending, set_throttle_limit-negative,
}
use biboumi.Client.Frame.{channels_of}
use biboumi.Client.Membership.{
  set_and_forward_user_list, on_channel_join, on_channel_completely_joined, on_part, on_error,
  on_quit, change_nick_func, on_nick, on_kick,
}
use biboumi.Client.Membership.Owned.{Owned, Leaves, Keeps}
use biboumi.Client.Membership.Owned.Steps.{
  on_channel_join-Owned, on_channel_completely_joined-Owned, on_part-Owned, on_kick-Owned,
  on_quit-Owned, on_error_total,
}
use biboumi.Client.Membership.Owned.Names.{set_and_forward_user_list-Owned, on_nick-Owned}
use biboumi.Client.Modes.{on_isupport_message, on_mode, on_isupport_token, resize4}
use biboumi.Client.Dispatch.{parse_in_buffer}
use biboumi.Client.Dispatch.Owned.{KeepsBuffer, parse_in_buffer-Owned}
use biboumi.Client.Modes.Owned.{modes-Owned}
use biboumi.Client.Dispatch.Chunks.{parse_in_buffer-append}
use biboumi.World.{
  no_callback, IrcClient, Bridge, World, ok, fault, null_pointer, ◌>>=◌, with_client,
}

abbrev alice : IrcUser
alice = record { id = 0; nick = codes "alice"; host = codes "a@example.com"; modes = b'o' ∷ [] }

abbrev bob : IrcUser
bob = record { id = 1; nick = codes "bob"; host = codes "b@example.com"; modes = b'v' ∷ b'o' ∷ [] }

abbrev room : IrcChannel
room = record {
  joined = true;
  parting = false;
  topic = [];
  topic_author = [];
  self = some 0;
  users = alice ∷ bob ∷ [];
  next_id = 2;
}

-- Two messages may be sent at once.
abbrev pub bucket : TokensBucket
bucket = record { limit = at_most 2; tokens = 0 }

abbrev ping : IrcMessage
ping = record { prefix = []; command = codes "PING"; arguments = codes "biboumi" ∷ [] }

abbrev delayed : IrcMessage
delayed = record {
  prefix = codes "bob";
  command = codes "PING";
  arguments = codes "#a" ∷ codes "hello all" ∷ [];
}

abbrev client : IrcClient
client = record {
  hostname = codes "irc.example.com";
  own_host = [];
  user_hostname = [];
  username = codes "alice";
  realname = [];
  current_nick = codes "alice";
  message_queue = (delayed, no_callback) ∷ [];
  channels = (codes "#a", room) ∷ [];
  channels_to_join = [];
  welcomed = true;
  capabilities = [];
  chanmodes = [] ∷ [] ∷ [] ∷ [] ∷ [];
  chantypes = b'#' ∷ [];
  motd = [];
  prefix_to_mode = (b'@', b'o') ∷ [];
  sorted_user_modes = b'o' ∷ b'v' ∷ [];
  ports_to_try = [];
  nicks_to_treat_as_private = [];
  tokens_bucket = bucket;
  active = true;
  connects = [];
  sent = [];
}

abbrev bridge : Bridge
bridge = record {
  user_jid = codes "a@x";
  served_hostname = codes "biboumi.x";
  fixed_irc_server = [];
  resources_in_chan = ((codes "#a", codes "irc.example.com"), codes "phone" ∷ []) ∷ [];
  resources_in_server = (codes "irc.example.com", codes "phone" ∷ []) ∷ [];
  calls = [];
}

abbrev pub world : World
world = record { client = client; bridge = bridge }

room-IsOwned : IsOwned room
room-IsOwned = record {
  fresh = (omega arith, (omega arith, tt));
  distinct = ((λ e. omega arith, tt), (tt, tt));
  self_owned = inl refl;
  has_self = tt;
}

world-Owned : Owned world
world-Owned = record { all = (room-IsOwned, tt) }

world-Orderly : Orderly world
world-Orderly = inr refl

abbrev message : Bytes → Bytes → List Bytes → IrcMessage
message prefix command arguments = record {
  prefix = prefix;
  command = command;
  arguments = arguments;
}

abbrev by_alice : Bytes
by_alice = codes "alice!a@example.com"

-- `PRIVMSG #a :hi`, in two pieces.
parse_in_buffer-append_example :
    parse_in_buffer (codes ":bob!b PRIVMSG #a" ++ codes " :hi\r\nPI") world ≡ (
      parse_in_buffer (codes ":bob!b PRIVMSG #a") world >>= λ left.
      parse_in_buffer (left.0 ++ codes " :hi\r\nPI") left.1)
parse_in_buffer-append_example =
    parse_in_buffer-append (codes ":bob!b PRIVMSG #a") (codes " :hi\r\nPI") world

send_irc_message-pending_example :
    let w' = send_irc_message ping no_callback true world in
    (pending w' ≡ pending world ++ serialize ping ∷ []) × Orderly w'
send_irc_message-pending_example = send_irc_message-pending ping no_callback world world-Orderly

on_bucket_timer-pending_example :
    (pending (on_bucket_timer world) ≡ pending world) × Orderly (on_bucket_timer world)
on_bucket_timer-pending_example = on_bucket_timer-pending world world-Orderly

set_throttle_limit-negative_example :
    let w' = set_throttle_limit negative world in
    let w'' = send_irc_message ping no_callback true w' in
    (on_bucket_timer w' ≡ w')
    × (w''.client.sent ≡ world.client.sent ++ serialize ping ∷ [])
    × (w''.client.message_queue ≡ world.client.message_queue)
set_throttle_limit-negative_example = set_throttle_limit-negative ping no_callback world

delayed-IsMessage : IsMessage delayed
unfolding is_space is_trailing has_char
delayed-IsMessage = record {
  prefix_word = (refl, (refl, (refl, tt)));
  first = b'P';
  rest = codes "ING";
  command_is = refl;
  first_word = refl;
  first_ne_colon = refl;
  rest_word = (refl, (refl, (refl, tt)));
  arguments_are = middle refl refl (refl, tt) (trailing (holds_space refl) refl);
}

parse-serialize_body_example : parse (serialize_body delayed) ≡ delayed
parse-serialize_body_example = parse-serialize_body delayed delayed-IsMessage

on_kick-Owned_example :
    Leaves Owned
      (on_kick (message [] (codes "KICK") (codes "#a" ∷ codes "bob" ∷ codes "out" ∷ [])) world)
on_kick-Owned_example =
    on_kick-Owned (message [] (codes "KICK") (codes "#a" ∷ codes "bob" ∷ codes "out" ∷ [])) world
      (omega arith) world-Owned

on_part-Owned_example :
    Leaves Owned (on_part (message by_alice (codes "PART") (codes "#a" ∷ [])) world)
on_part-Owned_example =
    on_part-Owned (message by_alice (codes "PART") (codes "#a" ∷ [])) world (omega arith)
      world-Owned

on_quit-Owned_example :
    Leaves Owned (on_quit (message (codes "bob!b") (codes "QUIT") (codes "bye" ∷ [])) world)
on_quit-Owned_example =
    on_quit-Owned (message (codes "bob!b") (codes "QUIT") (codes "bye" ∷ [])) world world-Owned

on_channel_join-Owned_example :
    Leaves Owned (on_channel_join (message (codes "eve!e") (codes "JOIN") (codes "#a" ∷ [])) world)
on_channel_join-Owned_example =
    on_channel_join-Owned (message (codes "eve!e") (codes "JOIN") (codes "#a" ∷ [])) world
      (omega arith) world-Owned

abbrev names : IrcMessage
names = message [] (codes "353") (codes "alice" ∷ codes "=" ∷ codes "#b" ∷ codes "@alice eve" ∷ [])

set_and_forward_user_list-Owned_example : Leaves Owned (set_and_forward_user_list names world)
set_and_forward_user_list-Owned_example =
    set_and_forward_user_list-Owned names world (omega arith) world-Owned

abbrev end_of_names : IrcMessage
end_of_names = message [] (codes "366") (codes "alice" ∷ codes "#a" ∷ codes "End" ∷ [])

on_channel_completely_joined-Owned_example :
    Leaves Owned (on_channel_completely_joined end_of_names world)
on_channel_completely_joined-Owned_example =
    on_channel_completely_joined-Owned end_of_names world (omega arith) world-Owned

abbrev error : IrcMessage
error = message [] (codes "ERROR") (codes "Closing link" ∷ [])

on_error_total_example : (w' : World) × (on_error error world ≡ ok w') × (channels_of w' ≡ [])
on_error_total_example = on_error_total error (codes "Closing link") world refl world-Owned

bob_found : find_nick bob.nick room.users ≡ some bob
unfolding find_nick eq_bytes
bob_found = refl

abbrev pub iid : Iid
iid = record { local = codes "#a"; server_name = codes "irc.example.com"; type = channel }

send_muc_leave-forgets_example :
    is_resource_in_chan
      (to_tuple iid)
      (codes "phone")
      (send_muc_leave iid alice (codes "bye") true true world).bridge
    ≡ (not (same_chan (to_tuple iid) (to_tuple iid))
        && is_resource_in_chan (to_tuple iid) (codes "phone") world.bridge)
send_muc_leave-forgets_example =
    send_muc_leave-forgets iid alice (codes "bye") true world (to_tuple iid) (codes "phone")

is_resource_in_chan-remove_example :
    (is_resource_in_chan
        (to_tuple iid)
        (codes "phone")
        (remove_resource_from_chan (to_tuple iid) (codes "phone") bridge)
      ≡ (not (same_chan (to_tuple iid) (to_tuple iid) && eq_bytes (codes "phone") (codes "phone"))
          && is_resource_in_chan (to_tuple iid) (codes "phone") bridge))
    × IsSameElsewhere bridge (remove_resource_from_chan (to_tuple iid) (codes "phone") bridge)
is_resource_in_chan-remove_example =
    is_resource_in_chan-remove_resource_from_chan (to_tuple iid) (to_tuple iid) (codes "phone")
      (codes "phone") bridge

-- A user joins, changes their nick, and the user of the gateway is kicked.
abbrev stream : Bytes
stream = codes ":eve!e JOIN #a\r\n:eve!e NICK eva\r\n:bob!b KICK #a alice :out\r\n"

parse_in_buffer-Owned_example : KeepsBuffer (parse_in_buffer stream world)
parse_in_buffer-Owned_example = parse_in_buffer-Owned stream world world-Owned
