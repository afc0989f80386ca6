-- ===== src/Client/Messages/Bounds.antt =====
-- The lengths of the lines that `send_channel_message` and `send_private_message` send
-- (irc/irc_client.cpp).
use mathlib.Core.List.{flatten}
use biboumi.Base.{
  ℕ, zero, suc, ◌+◌, ◌-◌, ◌≤◌, true, some, List, [], ◌∷◌, ◌++◌, ◌≡◌, refl, ap, ◌∙◌, arith, Bytes,
  codes, length, take, drop, All, length-append, length-drop, take-append-drop, length-take,
}
use biboumi.Irc.Message.{serialize, serialize_body, serialize_arguments, crlf}
use biboumi.Utils.Strings.Cut.{cut_total, IsCut}
use biboumi.Client.Channels.{get_channel}
use biboumi.Client.Send.{command}
use biboumi.Client.Messages.{around_text, line_size, send_lines, send_channel_message, parts_of}
use biboumi.World.{MessageCallback, World}

line_size_eq :
    (nick chan_name : Bytes)
    → around_text nick chan_name ≤ 512
    → line_size nick chan_name ≡ 512 - around_text nick chan_name
unfolding line_size
line_size_eq nick chan_name h = omega arith

last_argument-length : (line : Bytes) → length (serialize_arguments (line ∷ [])) ≤ length line + 2
unfolding serialize_arguments
last_argument-length line = ground (arith, length-append line [])

arguments-length :
    (chan_name line : Bytes)
    → length (serialize_arguments (chan_name ∷ line ∷ [])) ≤ length chan_name + length line + 3
unfolding serialize_arguments
arguments-length chan_name line =
    ground
      (arith, length-append chan_name (serialize_arguments (line ∷ [])), last_argument-length line)

privmsg-length :
    (chan_name line : Bytes)
    → length (serialize (command (codes "PRIVMSG") (chan_name ∷ line ∷ [])))
      ≤ length chan_name + length line + 12
unfolding serialize serialize_body crlf
privmsg-length chan_name line = omega (
  arith,
  arguments-length chan_name line,
  length-append (serialize_arguments (chan_name ∷ line ∷ [])) (b'\r' ∷ b'\n' ∷ []),
)

-- The parts of a private message are the message, and none has more than 400 bytes.
parts_of-IsCut : (n : ℕ) (body : Bytes) → length body ≤ n → IsCut body 400 (parts_of n body)
unfolding parts_of flatten
parts_of-IsCut zero [] h = record { whole = refl; fits = tt }
parts_of-IsCut zero (c ∷ body) h = absurd (omega arith)
parts_of-IsCut (suc n) [] h = record { whole = refl; fits = tt }
parts_of-IsCut (suc n) (c ∷ body) h =
    let rest = parts_of-IsCut n (drop 400 (c ∷ body)) (omega (arith, length-drop 400 (c ∷ body))) in
    record {
      whole = ap (λ z. take 400 (c ∷ body) ++ z) rest.whole ∙ take-append-drop 400 (c ∷ body);
      fits = (omega (arith, length-take 400 (c ∷ body)), rest.fits);
    }

-- How the server shows a line to the others: with the nick, a user name of ten bytes and a host of
-- 63 in front of it.
shown : Bytes → Bytes → Bytes → ℕ
shown nick chan_name line =
    (1 + length nick + 1 + 10 + 1 + 63 + 1)
    + length (serialize (command (codes "PRIVMSG") (chan_name ∷ line ∷ [])))

pub FitsAll : Bytes → Bytes → List Bytes → Type 0
FitsAll nick chan_name = All (λ line. shown nick chan_name line ≤ 512)

fits-FitsAll :
    (nick chan_name : Bytes) (lines : List Bytes) (n : ℕ)
    → around_text nick chan_name + n ≤ 512
    → All (λ line. length line ≤ n) lines
    → FitsAll nick chan_name lines
unfolding FitsAll shown
fits-FitsAll nick chan_name [] n h fits = tt
fits-FitsAll nick chan_name (line ∷ lines) n h fits = (
  omega (arith, privmsg-length chan_name line, fits.0),
  fits-FitsAll nick chan_name lines n h fits.1,
)

-- A message to a channel that is joined is sent in lines that are the whole message in order, none
-- of which has more than 512 bytes when the server shows it with its source: the nick, a user name
-- of ten bytes and a host name of 63. The nick and the name of the channel must leave room for a
-- character of four bytes.
pub send_channel_message-FitsAll :
    (chan_name body : Bytes) (cb : MessageCallback) (w : World)
    → (get_channel chan_name w).0.joined ≡ true
    → around_text (get_channel chan_name w).1.client.current_nick chan_name + 4 ≤ 512
    → (lines : List Bytes) × (flatten lines ≡ body)
      × FitsAll (get_channel chan_name w).1.client.current_nick chan_name lines
      × (send_channel_message chan_name body cb w
          ≡ some (send_lines chan_name cb lines (get_channel chan_name w).1, true))
unfolding send_channel_message
send_channel_message-FitsAll chan_name body cb w joined room =
    let nick = (get_channel chan_name w).1.client.current_nick in
    let size = line_size_eq nick chan_name (omega arith) in
    let (lines, done, good) = cut_total body (line_size nick chan_name) (omega arith) in
    (
      lines,
      good.whole,
      fits-FitsAll nick chan_name lines (line_size nick chan_name) (omega arith) good.fits,
      rw (joined, done, send_channel_message) refl,
    )
