-- ===== src/Tests/Requests.antt =====
-- Concrete inputs for src/bridge and for the messages of src/irc/irc_client.cpp.
use mathlib.Core.List.{flatten}
use biboumi.Base.{
  ◌+◌, ◌≤◌, ◌≡◌, is_empty, if◌then◌else◌, refl, arith, true, some, List, [], ◌∷◌, Bytes, codes,
  eq_bytes, lookup, has_char,
}
use biboumi.Bridge.Colors.{
  irc_format_to_xhtmlim, next_format, format_loop, close_span, start_format,
}
use biboumi.Bridge.Colors.Clean.{IsClean, irc_format_to_xhtmlim-IsClean}
use biboumi.Bridge.Colors.Text.{text_of, irc_format_to_xhtmlim-text_of}
use biboumi.Bridge.Requests.{wanted_modes, change_modes}
use biboumi.Bridge.Requests.Modes.{IsModeString, IsShown, given_mode, change_modes-IsModeString}
use biboumi.Bridge.Waiting.{Waiting, kick_answer}
use biboumi.Bridge.Waiting.Answers.{Answered, run_messages, run_messages-Answered}
use biboumi.Client.Send.{send_mode_command}
use biboumi.Client.Channels.{get_channel, find_channel}
use biboumi.Utils.Strings.{tolower}
use biboumi.Client.Messages.{send_channel_message, send_lines, around_text}
use biboumi.Client.Messages.Bounds.{FitsAll, send_channel_message-FitsAll}
use biboumi.Irc.Message.{IrcMessage}
use biboumi.Xmpp.Node.{XmlNode}
use biboumi.World.{no_callback}
use biboumi.Tests.{world, iid}

abbrev bold : Bytes
bold = codes "a \u{2}bold\u{2} word"

abbrev bold_xhtml : XmlNode
bold_xhtml = (close_span (format_loop 13 bold start_format)).result

bold_has_xhtml : (irc_format_to_xhtmlim bold).1 ≡ some bold_xhtml
unfolding irc_format_to_xhtmlim next_format has_char
bold_has_xhtml = refl

irc_format_to_xhtmlim-text_of_example : text_of bold_xhtml ≡ (irc_format_to_xhtmlim bold).0
irc_format_to_xhtmlim-text_of_example = irc_format_to_xhtmlim-text_of bold bold_xhtml bold_has_xhtml

irc_format_to_xhtmlim-IsClean_example : IsClean (irc_format_to_xhtmlim bold).0
irc_format_to_xhtmlim-IsClean_example = irc_format_to_xhtmlim-IsClean bold

abbrev kicked : IrcMessage
kicked = record {
  prefix = codes "alice!a@example.com";
  command = codes "KICK";
  arguments = codes "#a" ∷ codes "bob" ∷ [];
}

abbrev waiting : Waiting
waiting = record {
  world = world;
  waiting_irc = kick_answer (codes "bob") (codes "7") (codes "a@x/phone") iid ∷ [];
  channel_list_cache = [];
}

abbrev quiet : Waiting
quiet = record waiting { waiting_irc = [] }

-- The kick that was asked for, and one more.
abbrev kicks : List (Bytes × IrcMessage)
kicks = (codes "irc.example.com", kicked) ∷ (codes "irc.example.com", kicked) ∷ []

run_messages-Answered_example : Answered waiting (run_messages kicks waiting)
run_messages-Answered_example = run_messages-Answered kicks waiting

room_joined : (get_channel (codes "#a") world).0.joined ≡ true
unfolding get_channel find_channel lookup tolower eq_bytes
room_joined = refl

room_left :
    around_text (get_channel (codes "#a") world).1.client.current_nick (codes "#a") + 4 ≤ 512
unfolding get_channel find_channel lookup tolower eq_bytes
room_left = omega arith

send_channel_message-FitsAll_example :
    (lines : List Bytes) × (flatten lines ≡ codes "hello")
    × FitsAll (get_channel (codes "#a") world).1.client.current_nick (codes "#a") lines
    × (send_channel_message (codes "#a") (codes "hello") no_callback world
        ≡ some (send_lines (codes "#a") no_callback lines (get_channel (codes "#a") world).1, true))
send_channel_message-FitsAll_example =
    send_channel_message-FitsAll (codes "#a") (codes "hello") no_callback world room_joined
      room_left

member_wanted :
    wanted_modes (codes "member") (codes "participant") ≡ some (codes "+v", 1, codes "hoaq")
unfolding wanted_modes eq_bytes
member_wanted = refl

-- An operator becomes a member.
change_modes-IsModeString_example :
    (modes : Bytes) × (nicks : List Bytes) × IsModeString
      (codes "bob")
      (b'o' ∷ [])
      (codes "+v")
      modes
      nicks
    × IsShown (codes "member") (codes "participant") (given_mode (codes "+v"))
    × ((change_modes iid
          (codes "a@x/phone")
          (codes "bob")
          (codes "7")
          (b'o' ∷ [])
          (wanted_modes (codes "member") (codes "participant"))
          quiet).world
        ≡ (if is_empty modes then world else send_mode_command iid.local (modes ∷ nicks) world))
change_modes-IsModeString_example =
    change_modes-IsModeString iid (codes "a@x/phone") (codes "bob") (codes "7") (codes "member")
      (codes "participant") (b'o' ∷ []) (codes "+v", 1, codes "hoaq") quiet member_wanted
