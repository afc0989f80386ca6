-- ===== src/Config/SaveAndRead.antt =====
-- Saving the configuration and reading it again (config/config.cpp).
use mathlib.Core.List.{append_assoc, append-nil}
use biboumi.Base.{
  ℕ, Bool, true, false, Option, none, some, List, [], ◌∷◌, ◌++◌, ◌≡◌, refl, ap, ◌∙◌, arith, ◌==◌,
  Bytes, eq_bytes_iff, has_char, cut_at, bytes_eq, lookup, put, lookup-put, cut_at-append,
  has_char-append, Bool-cases, inl, inr,
}
use biboumi.Utils.Strings.{split, split_onto}
use biboumi.Config.{Config, parse_line, parse_lines, conf_text, get, clear, read_values, read_conf}

or_else : Option Bytes → Option Bytes → Option Bytes
or_else none b = b
or_else (some a) b = some a

or_else-none : (o : Option Bytes) → or_else o none ≡ o
unfolding or_else
or_else-none none = refl
or_else-none (some a) = refl

rest_lacks : (c : ℕ) (s : Bytes) → has_char b'\n' (c ∷ s) ≡ false → has_char b'\n' s ≡ false
unfolding has_char
rest_lacks c s h = ground arith

-- An option that the format can hold.
abbrev is_comment : Bytes → Bool
is_comment [] = false
is_comment (c ∷ s) = c == b'#'

unfoldable pub IsWritable : Bytes × Bytes → Type 0
IsWritable (option, value) =
    (is_comment option ≡ false)
    × (has_char b'=' option ≡ false)
    × (has_char b'\n' option ≡ false)
    × (has_char b'\n' value ≡ false)

-- The options of a map are distinct, and each can be written.
unfoldable pub AreWritable : List (Bytes × Bytes) → Type 0
AreWritable [] = Unit
AreWritable ((option, value) ∷ values) =
    IsWritable (option, value) × (lookup option values ≡ none) × AreWritable values

split_onto-line :
    (item line rest : Bytes)
    → has_char b'\n' line ≡ false
    → split_onto item (line ++ b'\n' ∷ rest) b'\n' true
      ≡ (item ++ line) ∷ split_onto [] rest b'\n' true
unfolding split_onto has_char
split_onto-line [] [] rest h = refl
split_onto-line (x ∷ item) [] rest h = simp append-nil
split_onto-line item (c ∷ line) rest h = elim (Bool-cases (c == b'\n')) [
  | inl e ↦ ground arith
  | inr e ↦ rw e (
      split_onto-line (item ++ c ∷ []) line rest (rest_lacks c line h)
      ∙ ap (λ z. z ∷ split_onto [] rest b'\n' true) (append_assoc item (c ∷ []) line))
]

-- A written option is read as it was.
parse_line-line :
    (option value : Bytes) (values : List (Bytes × Bytes))
    → IsWritable (option, value)
    → parse_line false (option ++ b'=' ∷ value) values ≡ put option value values
unfolding parse_line IsWritable cut_at
parse_line-line [] value values h = refl
parse_line-line (c ∷ option) value values h =
    rw (h.0, cut_at-append b'=' (c ∷ option) value h.1) refl

line-newline :
    (option value : Bytes)
    → IsWritable (option, value)
    → has_char b'\n' (option ++ b'=' ∷ value) ≡ false
unfolding IsWritable has_char
line-newline option value h = ground (arith, has_char-append b'\n' option (b'=' ∷ value))

conf_text-cons :
    (option value : Bytes) (values : List (Bytes × Bytes))
    → conf_text ((option, value) ∷ values) ≡ (option ++ b'=' ∷ value) ++ b'\n' ∷ conf_text values
unfolding conf_text
conf_text-cons option value values = simp append_assoc

conf_text-lines :
    (option value : Bytes) (values : List (Bytes × Bytes))
    → IsWritable (option, value)
    → split_onto [] (conf_text ((option, value) ∷ values)) b'\n' true
      ≡ (option ++ b'=' ∷ value) ∷ split_onto [] (conf_text values) b'\n' true
conf_text-lines option value values h =
    ap (λ z. split_onto [] z b'\n' true) (conf_text-cons option value values)
    ∙ split_onto-line [] (option ++ b'=' ∷ value) (conf_text values) (line-newline option value h)

read_lookup :
    (option value : Bytes) (values m : List (Bytes × Bytes)) (j : Bytes)
    → lookup option values ≡ none
    → or_else (lookup j values) (lookup j (put option value m))
      ≡ or_else (lookup j ((option, value) ∷ values)) (lookup j m)
unfolding or_else lookup
read_lookup option value values m j d =
    ground (arith, lookup-put option j value m, eq_bytes_iff option j)

parse_lines-conf_text :
    (values m : List (Bytes × Bytes)) (j : Bytes)
    → AreWritable values
    → lookup j (parse_lines false (split_onto [] (conf_text values) b'\n' true) m)
      ≡ or_else (lookup j values) (lookup j m)
unfolding AreWritable split_onto parse_lines lookup or_else conf_text
parse_lines-conf_text [] m j h = refl
parse_lines-conf_text ((option, value) ∷ values) m j (w, d, h) =
    ap (λ z. lookup j (parse_lines false z m)) (conf_text-lines option value values w)
    ∙ ap (λ z. lookup j (parse_lines false (split_onto [] (conf_text values) b'\n' true) z))
        (parse_line-line option value m w)
    ∙ parse_lines-conf_text values (put option value m) j h
    ∙ read_lookup option value values m j d

-- Whatever is saved is read back: when the file of a configuration holds what `save_to_file` writes
-- for its options, `read_conf`, without an environment, gives each option the value that it had. An option must
-- not start with a `#` nor have an equals sign, and no option or value may have a newline.
pub read_conf-conf_text :
    {Callback : Type 0} (c : Config Callback) (file : Bytes → Option Bytes) (option default : Bytes)
    → AreWritable c.values
    → file c.filename ≡ some (conf_text c.values)
    → get option default (read_conf file [] [] c).0 ≡ get option default c
unfolding read_conf read_values split parse_lines get clear lookup
read_conf-conf_text c file option default h e =
    let q = parse_lines-conf_text c.values [] option h ∙ or_else-none (lookup option c.values) in
    rw (read_conf, e) (ap (λ o. elim o [ none ↦ default | some value ↦ value ]) q)
