-- ===== src/Config.antt =====
-- src/config/config.cpp. Files are a parameter: what can be read under a name, and which names can
-- be written.
pub mod SaveAndRead
use biboumi.Base.{
  ℕ, Bool, true, false, Option, none, some, List, [], ◌∷◌, ◌++◌, map, ◌==◌, if◌then◌else◌, Bytes,
  codes, eq_bytes, bytes_eq, starts_with, cut_at, is_empty, length, drop, lookup, put, contains,
}
use biboumi.Utils.Strings.{tolower, split}

-- The static members of the class. `saved` has the files that were written, with their names, and
-- `notified` the callbacks that were called, in order.
pub record Config (Callback : Type 0) : Type 0 where
  pub filename : Bytes
  pub values : List (Bytes × Bytes)
  pub callbacks : List Callback
  pub saved : List (Bytes × Bytes)
  pub notified : List Callback

abbrev env_option_prefix : Bytes
env_option_prefix = codes "BIBOUMI_"

abbrev put_env_option : Bytes → Bytes → List (Bytes × Bytes) → List (Bytes × Bytes)
put_env_option option value values =
    if starts_with env_option_prefix option
    then put (tolower (drop (length env_option_prefix) option)) value values
    else values

-- The closure `parse_line` of `read_conf`.
unfoldable pub parse_line : Bool → Bytes → List (Bytes × Bytes) → List (Bytes × Bytes)
unfolding put
parse_line env [] values = values
parse_line env (c ∷ line) values = if c == b'#' then values else elim (cut_at b'=' (c ∷ line)) [
  | none ↦ values
  | some (option, value) ↦
      if env then put_env_option option value values else put option value values
]

unfoldable pub parse_lines : Bool → List Bytes → List (Bytes × Bytes) → List (Bytes × Bytes)
unfolding parse_line
parse_lines env [] values = values
parse_lines env (line ∷ lines) values = parse_lines env lines (parse_line env line values)

-- What `save_to_file` writes.
unfoldable pub conf_text : List (Bytes × Bytes) → Bytes
conf_text [] = []
conf_text ((option, value) ∷ values) = option ++ b'=' ∷ value ++ b'\n' ∷ conf_text values

module _ {Callback : Type 0} where
  unfoldable pub get : Bytes → Bytes → Config Callback → Bytes
  unfolding lookup
  get option default c = elim (lookup option c.values) [ none ↦ default | some value ↦ value ]

  unfoldable pub get_bool : Bytes → Bool → Config Callback → Bool
  unfolding get
  get_bool option default c =
      let res = get option [] c in if is_empty res then default else eq_bytes res (codes "true")

  -- `atoi` is the one of the C library; an `int` is any type.
  unfoldable pub get_int : {Int : Type 0} → (Bytes → Int) → Bytes → Int → Config Callback → Int
  unfolding get
  get_int atoi option default c =
      let res = get option [] c in if is_empty res then default else atoi res

  unfoldable pub is_in_list : Bytes → Bytes → Config Callback → Bool
  unfolding get
  is_in_list option value c =
      let res = get option [] c in
      if is_empty res then false else contains value (split res b':' true)

  unfoldable pub connect : Callback → Config Callback → Config Callback
  connect callback c = record c { callbacks = c.callbacks ++ callback ∷ [] }

  unfoldable pub clear : Config Callback → Config Callback
  clear c = record c { values = [] }

  unfoldable pub trigger_configuration_change : Config Callback → Config Callback
  trigger_configuration_change c = record c { notified = c.notified ++ c.callbacks }

  unfoldable pub save_to_file : (Bytes → Bool) → Config Callback → Config Callback
  unfolding conf_text
  save_to_file writable c =
      if writable c.filename
      then record c { saved = c.saved ++ (c.filename, conf_text c.values) ∷ [] }
      else c

  unfoldable pub set : (Bytes → Bool) → Bytes → Bytes → Bool → Config Callback → Config Callback
  unfolding put save_to_file trigger_configuration_change
  set writable option value save c =
      let changed = record c { values = put option value c.values } in
      if save then trigger_configuration_change (save_to_file writable changed) else changed

  -- The lines of the file, then the ones of the environment.
  unfoldable pub read_values : Bytes → List Bytes → Config Callback → Config Callback
  unfolding parse_lines clear split
  read_values text environ c = record c {
    values = parse_lines true environ (parse_lines false (split text b'\n' true) (clear c).values);
  }

  unfoldable pub read_conf :
      (Bytes → Option Bytes) → List Bytes → Bytes → Config Callback → Config Callback × Bool
  unfolding read_values
  read_conf file environ name c =
      let named = if is_empty name then c else record c { filename = name } in
      elim (file named.filename) [
        | none ↦ (named, false)
        | some text ↦ (read_values text environ named, true)
      ]
