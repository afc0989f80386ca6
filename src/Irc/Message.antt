-- ===== src/Irc/Message.antt =====
-- src/irc/irc_message.cpp, and the text that `IrcClient::actual_send` writes.
pub mod RoundTrip
use biboumi.Base.{
  ℕ, zero, suc, ◌+◌, Bool, true, false, ◌&&◌, ◌||◌, not, List, [], ◌∷◌, ◌++◌, leb, ◌==◌,
  if◌then◌else◌, Bytes, codes, is_empty, has_char, length,
}

pub record IrcMessage : Type 0 where
  pub prefix : Bytes
  pub command : Bytes
  pub arguments : List Bytes

-- `std::isspace` in the "C" locale, which `>>` and `std::ws` skip.
unfoldable pub is_space : ℕ → Bool
is_space c = c == b' ' || (leb b'\t' c && leb c b'\r')

unfoldable pub skip_spaces : Bytes → Bytes
skip_spaces [] = []
skip_spaces (c ∷ s) = if is_space c then skip_spaces s else c ∷ s

-- The bytes up to the next space, which `>>` reads, and what it leaves.
unfoldable pub word : Bytes → Bytes
word [] = []
word (c ∷ s) = let w = c ∷ word s in if is_space c then [] else w

unfoldable pub after_word : Bytes → Bytes
after_word [] = []
after_word (c ∷ s) = if is_space c then c ∷ s else after_word s

-- `std::getline`: up to the next newline.
unfoldable pub line : Bytes → Bytes
line [] = []
line (c ∷ s) = let l = c ∷ line s in if c == b'\n' then [] else l

unfoldable pub after_line : Bytes → Bytes
after_line [] = []
after_line (c ∷ s) = if c == b'\n' then s else after_line s

-- The arguments. A round reads a byte at least, so the length of the text is rounds enough.
unfoldable pub parse_arguments : ℕ → Bytes → List Bytes
unfolding is_space skip_spaces word after_word line after_line
parse_arguments zero s = []
parse_arguments (suc fuel) s = elim (skip_spaces s) [
  | [] ↦ []
  | c ∷ rest ↦
      let trailing = line rest ∷ parse_arguments fuel (after_line rest) in
      let middle = word (c ∷ rest) ∷ parse_arguments fuel (after_word (c ∷ rest)) in
      if c == b':' then trailing else middle
]

abbrev parse_command : Bytes → Bytes → IrcMessage
parse_command prefix s = record {
  prefix = prefix;
  command = word (skip_spaces s);
  arguments = parse_arguments (suc (length s)) (after_word (skip_spaces s));
}

unfoldable pub parse : Bytes → IrcMessage
unfolding parse_arguments
parse [] = parse_command [] []
parse (c ∷ s) =
    if c == b':'
    then parse_command (word (skip_spaces s)) (after_word (skip_spaces s))
    else parse_command [] (c ∷ s)

-- An argument that must be the last one: it holds a space or starts with a colon.
unfoldable pub is_trailing : Bytes → Bool
is_trailing [] = false
is_trailing (c ∷ arg) = has_char b' ' (c ∷ arg) || c == b':'

-- The arguments behind a trailing one are not sent.
unfoldable pub serialize_arguments : List Bytes → Bytes
unfolding is_trailing
serialize_arguments [] = []
serialize_arguments (arg ∷ args) =
    if is_trailing arg then b' ' ∷ b':' ∷ arg else b' ' ∷ (arg ++ serialize_arguments args)

unfoldable pub crlf : Bytes
crlf = b'\r' ∷ b'\n' ∷ []

-- The text in front of the end of the line.
unfoldable pub serialize_body : IrcMessage → Bytes
unfolding serialize_arguments
serialize_body message =
    (if is_empty message.prefix then [] else b':' ∷ (message.prefix ++ b' ' ∷ []))
    ++ (message.command ++ serialize_arguments message.arguments)

unfoldable pub serialize : IrcMessage → Bytes
unfolding serialize_body crlf
serialize message = serialize_body message ++ crlf
