-- ===== src/Irc/Message/RoundTrip.antt =====
-- Reading what `actual_send` writes.
use mathlib.Core.List.{append_assoc}
use biboumi.Base.{
  ℕ, zero, suc, ◌≤◌, ◌<◌, true, false, List, [], ◌∷◌, ◌++◌, ◌≡◌, refl, ap, ◌∙◌, arith, ◌==◌, Bytes,
  has_char, length, length-append, All, Bool-cases, inl, inr,
}
use biboumi.Irc.Message.{
  IrcMessage, is_space, skip_spaces, word, after_word, line, after_line, parse_arguments,
  parse_command, parse, is_trailing, serialize_arguments, serialize_body,
}

abbrev pub IsWord : Bytes → Type 0
IsWord = All (λ c. is_space c ≡ false)

-- Nothing, or a space, stands behind a word.
pub data Ends : Bytes → Type 0 where
  at_end : Ends []
  at_space : {rest : Bytes} → Ends (b' ' ∷ rest)

-- An argument that a receiver reads as one only behind a colon.
pub data NeedsColon : Bytes → Type 0 where
  holds_space : {arg : Bytes} → has_char b' ' arg ≡ true → NeedsColon arg
  starts_with_colon : {arg : Bytes} → NeedsColon (b':' ∷ arg)

-- Arguments that can be sent: words that do not start with a colon, and possibly a last one that
-- has to be marked by a colon and holds no newline.
pub data IsArguments : List Bytes → Type 0 where
  done : IsArguments []
  middle :
      {c : ℕ} {w : Bytes} {args : List Bytes}
      → is_space c ≡ false
      → (c == b':') ≡ false
      → IsWord w
      → IsArguments args
      → IsArguments ((c ∷ w) ∷ args)
  trailing : {arg : Bytes} → NeedsColon arg → has_char b'\n' arg ≡ false → IsArguments (arg ∷ [])

word-append : (w rest : Bytes) → IsWord w → Ends rest → word (w ++ rest) ≡ w
unfolding word is_space
word-append [] _ h at_end = refl
word-append [] _ h at_space = refl
word-append (c ∷ w) rest h e = ground (arith, word-append w rest h.1 e)

after_word-append : (w rest : Bytes) → IsWord w → Ends rest → after_word (w ++ rest) ≡ rest
unfolding after_word is_space
after_word-append [] _ h at_end = refl
after_word-append [] _ h at_space = refl
after_word-append (c ∷ w) rest h e = ground (arith, after_word-append w rest h.1 e)

line-all : (s : Bytes) → has_char b'\n' s ≡ false → line s ≡ s
unfolding line has_char
line-all [] h = refl
line-all (c ∷ s) h = ground (arith, line-all s)

after_line-all : (s : Bytes) → has_char b'\n' s ≡ false → after_line s ≡ []
unfolding after_line has_char
after_line-all [] h = refl
after_line-all (c ∷ s) h = ground (arith, after_line-all s)

no_space : (w : Bytes) → IsWord w → has_char b' ' w ≡ false
unfolding has_char is_space
no_space [] h = refl
no_space (c ∷ w) h = ground (arith, no_space w h.1)

NeedsColon-trailing : (arg : Bytes) → NeedsColon arg → is_trailing arg ≡ true
unfolding is_trailing has_char
NeedsColon-trailing [] (holds_space h) = h
NeedsColon-trailing (c ∷ arg) (holds_space h) = rw h
NeedsColon-trailing (_ ∷ arg) starts_with_colon = ground arith

not_trailing :
    (c : ℕ) (w : Bytes)
    → is_space c ≡ false
    → (c == b':') ≡ false
    → IsWord w
    → is_trailing (c ∷ w) ≡ false
unfolding is_trailing has_char is_space
not_trailing c w s h i = ground (arith, no_space w i)

Ends-serialize_arguments : (args : List Bytes) → Ends (serialize_arguments args)
unfolding serialize_arguments
Ends-serialize_arguments [] = at_end
Ends-serialize_arguments (arg ∷ args) = elim (Bool-cases (is_trailing arg)) [
  | inl t ↦ rw t at_space
  | inr f ↦ rw f at_space
]

parse_arguments_middle :
    (fuel c : ℕ) (w rest : Bytes)
    → is_space c ≡ false
    → (c == b':') ≡ false
    → IsWord w
    → Ends rest
    → parse_arguments (suc fuel) (b' ' ∷ c ∷ (w ++ rest)) ≡ (c ∷ w) ∷ parse_arguments fuel rest
unfolding parse_arguments
parse_arguments_middle fuel c w rest s colon word_w ends =
    ground (arith, word-append w rest word_w ends, after_word-append w rest word_w ends)

parse_arguments_trailing :
    (fuel : ℕ) (arg : Bytes)
    → has_char b'\n' arg ≡ false
    → parse_arguments (suc fuel) (b' ' ∷ b':' ∷ arg) ≡ arg ∷ parse_arguments fuel []
unfolding parse_arguments
parse_arguments_trailing fuel arg n = ground (arith, line-all arg n, after_line-all arg n)

parse_arguments-nil : (fuel : ℕ) → parse_arguments fuel [] ≡ []
unfolding parse_arguments
parse_arguments-nil zero = refl
parse_arguments-nil (suc fuel) = refl

parse_arguments-serialize_arguments :
    (fuel : ℕ) {args : List Bytes}
    → IsArguments args
    → length args < fuel
    → parse_arguments fuel (serialize_arguments args) ≡ args
unfolding serialize_arguments
parse_arguments-serialize_arguments zero a h = absurd (omega arith)
parse_arguments-serialize_arguments (suc fuel) done h = parse_arguments-nil (suc fuel)
parse_arguments-serialize_arguments (suc fuel) (middle {c} {w} {args} s colon word_w a) h =
    rw (not_trailing c w s colon word_w) (
      parse_arguments_middle fuel c w (serialize_arguments args) s colon word_w
        (Ends-serialize_arguments args)
      ∙ ap (◌∷◌ (c ∷ w)) (parse_arguments-serialize_arguments fuel a (omega arith)))
parse_arguments-serialize_arguments (suc fuel) (trailing {arg} t n) h =
    rw (NeedsColon-trailing arg t)
      (parse_arguments_trailing fuel arg n ∙ ap (◌∷◌ arg) (parse_arguments-nil fuel))

length-le-serialize_arguments :
    {args : List Bytes} → IsArguments args → length args ≤ length (serialize_arguments args)
unfolding serialize_arguments
length-le-serialize_arguments done = omega arith
length-le-serialize_arguments (middle {c} {w} {args} s colon word_w a) =
    rw (not_trailing c w s colon word_w)
      (omega (arith, length-append w (serialize_arguments args), length-le-serialize_arguments a))
length-le-serialize_arguments (trailing {arg} t n) = rw (NeedsColon-trailing arg t) (omega arith)

-- A message that IRC can carry: the prefix and the command are words, the command is not empty,
-- and it does not look like a prefix.
pub record IsMessage (m : IrcMessage) : Type 0 where
  pub prefix_word : IsWord m.prefix
  pub first : ℕ
  pub rest : Bytes
  pub command_is : m.command ≡ first ∷ rest
  pub first_word : is_space first ≡ false
  pub first_ne_colon : (first == b':') ≡ false
  pub rest_word : IsWord rest
  pub arguments_are : IsArguments m.arguments

skip_spaces_word : (c : ℕ) (s : Bytes) → is_space c ≡ false → skip_spaces (c ∷ s) ≡ c ∷ s
unfolding skip_spaces
skip_spaces_word c s h = rw h

skip_spaces_space : (s : Bytes) → skip_spaces (b' ' ∷ s) ≡ skip_spaces s
unfolding skip_spaces is_space
skip_spaces_space s = refl

parse_command-serialize_arguments :
    (prefix s : Bytes) (c : ℕ) (rest : Bytes) {args : List Bytes}
    → is_space c ≡ false
    → IsWord rest
    → IsArguments args
    → skip_spaces s ≡ c ∷ (rest ++ serialize_arguments args)
    → length args ≤ length s
    → parse_command prefix s ≡ record { prefix = prefix; command = c ∷ rest; arguments = args }
parse_command-serialize_arguments prefix s c rest {args} space word_rest a e enough =
    let ends = Ends-serialize_arguments args in
    let read = word-append (c ∷ rest) (serialize_arguments args) (space, word_rest) ends in
    let left = after_word-append (c ∷ rest) (serialize_arguments args) (space, word_rest) ends in
    rw (e, left) (rw (read, parse_arguments-serialize_arguments (suc (length s)) a (omega arith)))

parse-serialize_no_prefix :
    (c : ℕ) (rest : Bytes) {args : List Bytes}
    → is_space c ≡ false
    → (c == b':') ≡ false
    → IsWord rest
    → IsArguments args
    → parse (c ∷ (rest ++ serialize_arguments args))
      ≡ record { prefix = []; command = c ∷ rest; arguments = args }
unfolding parse
parse-serialize_no_prefix c rest {args} space colon word_rest a =
    let text = rest ++ serialize_arguments args in
    rw colon (
      parse_command-serialize_arguments [] (c ∷ text) c rest space word_rest a
        (skip_spaces_word c text space)
        (omega
          (arith, length-append rest (serialize_arguments args), length-le-serialize_arguments a)))

parse-serialize_prefix :
    (p : ℕ) (prefix : Bytes) (c : ℕ) (rest : Bytes) {args : List Bytes}
    → IsWord (p ∷ prefix)
    → is_space c ≡ false
    → IsWord rest
    → IsArguments args
    → parse (b':' ∷ ((p ∷ prefix) ++ (b' ' ∷ c ∷ (rest ++ serialize_arguments args))))
      ≡ record { prefix = p ∷ prefix; command = c ∷ rest; arguments = args }
unfolding parse
parse-serialize_prefix p prefix c rest {args} word_p space word_rest a =
    let tail = b' ' ∷ c ∷ (rest ++ serialize_arguments args) in
    rw (skip_spaces_word p (prefix ++ tail) word_p.0) (
      rw
        (
          word-append (p ∷ prefix) tail word_p at_space,
          after_word-append (p ∷ prefix) tail word_p at_space,
        )
        (parse_command-serialize_arguments (p ∷ prefix) tail c rest space word_rest a
          (skip_spaces_space (c ∷ (rest ++ serialize_arguments args))
            ∙ skip_spaces_word c (rest ++ serialize_arguments args) space)
          (omega (
            arith,
            length-append rest (serialize_arguments args),
            length-le-serialize_arguments a,
          ))))

body_at :
    (prefix command : Bytes) (args : List Bytes) (c : ℕ) (rest : Bytes)
    → command ≡ c ∷ rest
    → IsWord prefix
    → is_space c ≡ false
    → (c == b':') ≡ false
    → IsWord rest
    → IsArguments args
    → parse (serialize_body (record { prefix = prefix; command = command; arguments = args }))
      ≡ record { prefix = prefix; command = command; arguments = args }
unfolding serialize_body
body_at [] command args c rest e word_p space colon word_rest a =
    rw e (parse-serialize_no_prefix c rest space colon word_rest a)
body_at (p ∷ prefix) command args c rest e word_p space colon word_rest a = rw e (
    rw (append_assoc (p ∷ prefix) (b' ' ∷ []) ((c ∷ rest) ++ serialize_arguments args))
      (parse-serialize_prefix p prefix c rest word_p space word_rest a))

-- Reading the text of a message, without its end of line, gives the message back, provided that IRC
-- can carry it: the prefix and the command are words, and only the last argument may hold spaces or
-- start with a colon.
pub parse-serialize_body : (m : IrcMessage) → IsMessage m → parse (serialize_body m) ≡ m
parse-serialize_body m h =
    body_at m.prefix m.command m.arguments h.first h.rest h.command_is h.prefix_word h.first_word
      h.first_ne_colon h.rest_word h.arguments_are
