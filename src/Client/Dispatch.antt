-- ===== src/Client/Dispatch.antt =====
-- `irc_callbacks` and `parse_in_buffer` of src/irc/irc_client.cpp. The buffer of the socket is an
-- argument of its own, since no handler reads or writes it. The state is one in which no answer to
-- an iq is waited for, so `trigger_on_irc_message` has nothing to call here; Bridge/Waiting.antt models
-- it, with the closures that wait.
pub mod Chunks
pub mod Keeping
pub mod Owned
use biboumi.Base.{
  ℕ, zero, suc, Bool, ◌&&◌, ◌||◌, Option, none, some, List, [], ◌∷◌, ltb, ◌==◌, if◌then◌else◌,
  Bytes, codes, bytes_eq, length, lookup,
}
use biboumi.Irc.Message.{IrcMessage, parse}
use biboumi.Client.Texts.{
  Handler, skip, forward_server_message, on_channel_message, on_notice, on_invited, empty_motd,
  on_motd_line, send_motd, on_empty_topic, on_topic_received, on_topic_who_time_received,
  on_banlist, on_banlist_end,
}
use biboumi.Client.Errors.{
  on_own_host_received, on_erroneous_nickname, on_generic_error, on_nickname_conflict,
  on_nickname_change_too_fast, on_useronchannel, on_channel_bad_key, on_invite, send_pong_command,
  on_unknown_message,
}
use biboumi.Client.Membership.{
  set_and_forward_user_list, on_channel_join, on_channel_completely_joined, on_part, on_error,
  on_quit, on_nick, on_kick,
}
use biboumi.Client.Modes.{on_isupport_message, on_mode}
use biboumi.Client.Join.{on_welcome_message, on_cap}
use biboumi.World.{World, Outcome, ok, thrown, fault, ◌>>=◌}

-- A handler, with the least number of arguments that it is called with, and the greatest (0: any).
pub record Callback : Type 0 where
  pub handler : Handler
  pub min : ℕ
  pub max : ℕ

abbrev entry : Bytes → Handler → ℕ → ℕ → Bytes × Callback
entry name h min max = (name, record { handler = h; min = min; max = max })

-- The build without SASL.
unfoldable pub irc_callbacks : List (Bytes × Callback)
irc_callbacks =
    entry (codes "NOTICE") on_notice 2 0
    ∷ entry (codes "002") forward_server_message 2 0
    ∷ entry (codes "003") forward_server_message 2 0
    ∷ entry (codes "004") skip 4 0
    ∷ entry (codes "005") on_isupport_message 0 0
    ∷ entry (codes "RPL_LISTSTART") skip 0 0
    ∷ entry (codes "321") skip 0 0
    ∷ entry (codes "RPL_LIST") skip 0 0
    ∷ entry (codes "322") skip 0 0
    ∷ entry (codes "RPL_LISTEND") skip 0 0
    ∷ entry (codes "323") skip 0 0
    ∷ entry (codes "RPL_NOTOPIC") on_empty_topic 0 0
    ∷ entry (codes "331") on_empty_topic 0 0
    ∷ entry (codes "341") on_invited 3 0
    ∷ entry (codes "RPL_MOTDSTART") empty_motd 0 0
    ∷ entry (codes "375") empty_motd 0 0
    ∷ entry (codes "RPL_MOTD") on_motd_line 2 0
    ∷ entry (codes "372") on_motd_line 2 0
    ∷ entry (codes "RPL_MOTDEND") send_motd 0 0
    ∷ entry (codes "376") send_motd 0 0
    ∷ entry (codes "JOIN") on_channel_join 1 0
    ∷ entry (codes "PRIVMSG") on_channel_message 2 0
    ∷ entry (codes "353") set_and_forward_user_list 4 0
    ∷ entry (codes "332") on_topic_received 2 0
    ∷ entry (codes "TOPIC") on_topic_received 2 0
    ∷ entry (codes "333") on_topic_who_time_received 4 0
    ∷ entry (codes "RPL_TOPICWHOTIME") on_topic_who_time_received 4 0
    ∷ entry (codes "366") on_channel_completely_joined 2 0
    ∷ entry (codes "367") on_banlist 3 0
    ∷ entry (codes "368") on_banlist_end 3 0
    ∷ entry (codes "396") on_own_host_received 2 0
    ∷ entry (codes "432") on_erroneous_nickname 2 0
    ∷ entry (codes "433") on_nickname_conflict 2 0
    ∷ entry (codes "438") on_nickname_change_too_fast 2 0
    ∷ entry (codes "443") on_useronchannel 3 0
    ∷ entry (codes "475") on_channel_bad_key 3 0
    ∷ entry (codes "ERR_USERONCHANNEL") on_useronchannel 3 0
    ∷ entry (codes "001") on_welcome_message 1 0
    ∷ entry (codes "PART") on_part 1 0
    ∷ entry (codes "ERROR") on_error 1 0
    ∷ entry (codes "QUIT") on_quit 0 0
    ∷ entry (codes "NICK") on_nick 1 0
    ∷ entry (codes "MODE") on_mode 1 0
    ∷ entry (codes "PING") send_pong_command 1 0
    ∷ entry (codes "PONG") skip 0 0
    ∷ entry (codes "KICK") on_kick 3 0
    ∷ entry (codes "INVITE") on_invite 2 0
    ∷ entry (codes "CAP") on_cap 3 0
    ∷ entry (codes "401") on_generic_error 2 0
    ∷ entry (codes "402") on_generic_error 2 0
    ∷ entry (codes "403") on_generic_error 2 0
    ∷ entry (codes "404") on_generic_error 2 0
    ∷ entry (codes "405") on_generic_error 2 0
    ∷ entry (codes "406") on_generic_error 2 0
    ∷ entry (codes "407") on_generic_error 2 0
    ∷ entry (codes "408") on_generic_error 2 0
    ∷ entry (codes "409") on_generic_error 2 0
    ∷ entry (codes "410") on_generic_error 2 0
    ∷ entry (codes "411") on_generic_error 2 0
    ∷ entry (codes "412") on_generic_error 2 0
    ∷ entry (codes "414") on_generic_error 2 0
    ∷ entry (codes "421") on_generic_error 2 0
    ∷ entry (codes "422") on_generic_error 2 0
    ∷ entry (codes "423") on_generic_error 2 0
    ∷ entry (codes "424") on_generic_error 2 0
    ∷ entry (codes "431") on_generic_error 2 0
    ∷ entry (codes "436") on_generic_error 2 0
    ∷ entry (codes "441") on_generic_error 2 0
    ∷ entry (codes "442") on_generic_error 2 0
    ∷ entry (codes "444") on_generic_error 2 0
    ∷ entry (codes "446") on_generic_error 2 0
    ∷ entry (codes "451") on_generic_error 2 0
    ∷ entry (codes "461") on_generic_error 2 0
    ∷ entry (codes "462") on_generic_error 2 0
    ∷ entry (codes "463") on_generic_error 2 0
    ∷ entry (codes "464") on_generic_error 2 0
    ∷ entry (codes "465") on_generic_error 2 0
    ∷ entry (codes "467") on_generic_error 2 0
    ∷ entry (codes "470") on_generic_error 2 0
    ∷ entry (codes "471") on_generic_error 2 0
    ∷ entry (codes "472") on_generic_error 2 0
    ∷ entry (codes "473") on_generic_error 2 0
    ∷ entry (codes "474") on_generic_error 2 0
    ∷ entry (codes "476") on_generic_error 2 0
    ∷ entry (codes "477") on_generic_error 2 0
    ∷ entry (codes "481") on_generic_error 2 0
    ∷ entry (codes "482") on_generic_error 2 0
    ∷ entry (codes "483") on_generic_error 2 0
    ∷ entry (codes "484") on_generic_error 2 0
    ∷ entry (codes "485") on_generic_error 2 0
    ∷ entry (codes "487") on_generic_error 2 0
    ∷ entry (codes "491") on_generic_error 2 0
    ∷ entry (codes "501") on_generic_error 2 0
    ∷ entry (codes "502") on_generic_error 2 0
    ∷ []

-- `catch (const std::exception&)`: the handler stops where it throws.
abbrev caught : Outcome World → Outcome World
caught (ok w) = ok w
caught (thrown w) = ok w
caught (fault e) = fault e

unfoldable pub call_back : Option Callback → Handler
call_back none m w = on_unknown_message m w
call_back (some cb) m w =
    if ltb (length m.arguments) cb.min || (ltb 0 cb.max && ltb cb.max (length m.arguments))
    then ok w
    else caught (cb.handler m w)

unfoldable pub handle_line : Bytes → World → Outcome World
unfolding irc_callbacks call_back
handle_line text w =
    let message = parse text in call_back (lookup message.command irc_callbacks) message w

-- The text before the first end of line, and the text behind it.
unfoldable pub cut_crlf : Bytes → Option (Bytes × Bytes)
cut_crlf [] = none
cut_crlf (c ∷ []) = none
cut_crlf (c ∷ d ∷ s) =
    let found = some ([], s) in
    let later : Option (Bytes × Bytes) = elim (cut_crlf (d ∷ s)) [
      | none ↦ none
      | some (before, rest) ↦ some (c ∷ before, rest)
    ] in
    if c == b'\r' && d == b'\n' then found else later

-- The rounds of the loop, and what is left of the buffer.
unfoldable pub parse_lines : ℕ → Bytes → World → Outcome (Bytes × World)
unfolding handle_line cut_crlf
parse_lines zero buf w = ok (buf, w)
parse_lines (suc n) buf w = elim (cut_crlf buf) [
  | none ↦ ok (buf, w)
  | some (text, rest) ↦ handle_line text w >>= λ w'. parse_lines n rest w'
]

-- A round reads two bytes at least, so the length of the buffer is rounds enough.
unfoldable pub parse_in_buffer : Bytes → World → Outcome (Bytes × World)
unfolding parse_lines
parse_in_buffer buf w = parse_lines (length buf) buf w
