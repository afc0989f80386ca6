-- ===== src/Bridge/Colors.antt =====
-- src/bridge/colors.cpp.
pub mod Clean
pub mod Text
use biboumi.Base.{
  ℕ, zero, suc, ◌+◌, ◌*◌, ◌-◌, ◌%◌, Bool, true, false, not, ◌&&◌, ◌||◌, Option, none, some, List,
  [], ◌∷◌, ◌++◌, ltb, leb, ◌==◌, if◌then◌else◌, Bytes, codes, has_char, is_empty, length, get_elem?,
}
use biboumi.Xmpp.Node.{XmlNode, make_node, set_attribute, add_child, append_text}

-- `irc_format_char`
abbrev pub irc_format_char : Bytes
irc_format_char = 0x02 ∷ 0x03 ∷ 0x0F ∷ 0x11 ∷ 0x12 ∷ 0x16 ∷ 0x1D ∷ 0x1F ∷ b'\n' ∷ []

abbrev irc_colors_to_css : List Bytes
irc_colors_to_css =
    codes "white"
    ∷ codes "black"
    ∷ codes "blue"
    ∷ codes "green"
    ∷ codes "indianred"
    ∷ codes "red"
    ∷ codes "magenta"
    ∷ codes "brown"
    ∷ codes "yellow"
    ∷ codes "lightgreen"
    ∷ codes "cyan"
    ∷ codes "lightcyan"
    ∷ codes "lightblue"
    ∷ codes "lightmagenta"
    ∷ codes "gray"
    ∷ codes "white"
    ∷ []

-- `styles_t`; a colour that is -1 is `none`.
pub record Styles : Type 0 where
  pub strong : Bool
  pub underline : Bool
  pub italic : Bool
  pub fg : Option ℕ
  pub bg : Option ℕ

unfoldable pub no_style : Styles
no_style = record { strong = false; underline = false; italic = false; fg = none; bg = none }

abbrev is_digit : ℕ → Bool
is_digit c = leb b'0' c && leb c b'9'

abbrev second_digit : ℕ → Bytes → Option ℕ × Bytes
second_digit n [] = (some n, [])
second_digit n (c ∷ s) = if is_digit c then (some (n * 10 + c - b'0'), s) else (some n, c ∷ s)

-- A colour of one or two digits.
unfoldable pub read_color : Bytes → Option ℕ × Bytes
read_color [] = (none, [])
read_color (c ∷ s) = if is_digit c then second_digit (c - b'0') s else (none, c ∷ s)

unfoldable pub read_background : Bytes → Option ℕ × Bytes
unfolding read_color
read_background [] = (none, [])
read_background (c ∷ s) = if c == b',' then read_color s else (none, c ∷ s)

abbrev css_color : Bytes → Option ℕ → Bytes
css_color property none = []
css_color property (some n) =
    property
    ++ (elim (get_elem? irc_colors_to_css (n % 16)) [ none ↦ [] | some c ↦ c ] ++ codes ";")

unfoldable pub styles_text : Styles → Bytes
styles_text s =
    (if s.strong then codes "font-weight:bold;" else [])
    ++ ((if s.underline then codes "text-decoration:underline;" else [])
        ++ ((if s.italic then codes "font-style:italic;" else [])
            ++ (css_color (codes "color:") s.fg ++ css_color (codes "background-color:") s.bg)))

-- The variables of the loop. `span` is the node that `current_node` points to, if it is not
-- `result`.
pub record Format : Type 0 where
  pub cleaned : Bytes
  pub result : XmlNode
  pub span : Option XmlNode
  pub styles : Styles

abbrev pub on_current : (XmlNode → XmlNode) → Format → Format
on_current f s = elim s.span [
  | none ↦ record s { result = f s.result }
  | some n ↦ record s { span = some (f n) }
]

unfoldable pub put_text : Bytes → Format → Format
put_text txt s = on_current (append_text txt) (record s { cleaned = s.cleaned ++ txt })

unfoldable pub put_newline : Format → Format
put_newline s =
    on_current (add_child (make_node (codes "br"))) (record s { cleaned = s.cleaned ++ b'\n' ∷ [] })

unfoldable pub close_span : Format → Format
close_span s = elim s.span [
  | none ↦ s
  | some n ↦ record s { result = add_child n s.result; span = none }
]

unfoldable pub open_span : Format → Format
unfolding styles_text
open_span s = if is_empty (styles_text s.styles) then s else record s {
  span = some (set_attribute (codes "style") (styles_text s.styles) (make_node (codes "span")));
}

-- A format character, which is not the one of a colour.
unfoldable pub apply_format : ℕ → Format → Format
unfolding put_newline no_style
apply_format c s =
    if c == 0x02
    then record s { styles = record s.styles { strong = not s.styles.strong } }
    else if c == b'\n'
    then put_newline s
    else if c == 0x1F
    then record s { styles = record s.styles { underline = not s.styles.underline } }
    else if c == 0x1D
    then record s { styles = record s.styles { italic = not s.styles.italic } }
    else if c == 0x0F
    then record s { styles = no_style }
    else s

unfoldable pub apply_color : Option ℕ → Option ℕ → Format → Format
apply_color fg bg s = record s { styles = record s.styles { fg = fg; bg = bg } }

-- The text up to the next format character, that character, and what is behind it.
unfoldable pub next_format : Bytes → Option (Bytes × ℕ × Bytes)
next_format [] = none
next_format (c ∷ s) =
    let found : Option (Bytes × ℕ × Bytes) = some ([], c, s) in
    let later : Option (Bytes × ℕ × Bytes) = elim (next_format s) [
      | none ↦ none
      | some (txt, f, rest) ↦ some (c ∷ txt, f, rest)
    ] in
    if has_char c irc_format_char then found else later

-- One round, on the text in front of a format character, that character and what is behind it.
unfoldable pub format_round : Bytes → ℕ → Bytes → Format → Format × Bytes
unfolding put_text apply_format apply_color read_color read_background close_span open_span
format_round txt c rest s =
    let s' = put_text txt s in
    let (fg, rest') = read_color rest in
    let (bg, rest'') = read_background rest' in
    if c == 0x03
    then (open_span (close_span (apply_color fg bg s')), rest'')
    else (open_span (close_span (apply_format c s')), rest)

-- A round reads a byte at least, so the length of the text is rounds enough.
unfoldable pub format_loop : ℕ → Bytes → Format → Format
unfolding next_format format_round
format_loop zero text s = put_text text s
format_loop (suc n) text s = elim (next_format text) [
  | none ↦ put_text text s
  | some (txt, c, rest) ↦ let (s', rest') = format_round txt c rest s in format_loop n rest' s'
]

abbrev pub start_format : Format
start_format = record {
  cleaned = [];
  result =
      set_attribute (codes "xmlns") (codes "http://www.w3.org/1999/xhtml")
        (make_node (codes "body"));
  span = none;
  styles = record { strong = false; underline = false; italic = false; fg = none; bg = none };
}

-- The cleaned text, and the XHTML if there is a format character.
unfoldable pub irc_format_to_xhtmlim : Bytes → Bytes × Option XmlNode
unfolding format_loop
irc_format_to_xhtmlim s = elim (next_format s) [
  | none ↦ (s, none)
  | some first ↦
      let f = close_span (format_loop (length s) s start_format) in (f.cleaned, some f.result)
]
