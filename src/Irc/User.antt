-- ===== src/Irc/User.antt =====
-- src/irc/irc_user.cpp.
pub mod Modes
use biboumi.Base.{
  ℕ, Bool, true, false, Option, none, some, List, [], ◌∷◌, ◌==◌, if◌then◌else◌, Bytes, has_char,
  lookup, nat_eq,
}

-- `id` is the address of the object: two users may have the same nick.
pub record IrcUser : Type 0 where
  pub id : ℕ
  pub nick : Bytes
  pub host : Bytes
  pub modes : List ℕ

-- `std::set<char>`: only `insert`, `erase` and `find` are used, so the order is not kept.
unfoldable pub insert_mode : ℕ → List ℕ → List ℕ
insert_mode mode modes = if has_char mode modes then modes else mode ∷ modes

unfoldable pub erase_mode : ℕ → List ℕ → List ℕ
erase_mode mode [] = []
erase_mode mode (m ∷ modes) =
    let rest = erase_mode mode modes in if m == mode then rest else m ∷ rest

-- The part of a text in front of the first `!`, and the part behind it.
unfoldable pub before_bang : Bytes → Bytes
before_bang [] = []
before_bang (c ∷ s) = let rest = c ∷ before_bang s in if c == b'!' then [] else rest

unfoldable pub after_bang : Bytes → Bytes
after_bang [] = []
after_bang (c ∷ s) = if c == b'!' then s else after_bang s

-- The loop over the prefixes, such as `@`, which stand in front of the nick.
unfoldable pub parse_name : ℕ → List ℕ → Bytes → List (ℕ × ℕ) → IrcUser
unfolding insert_mode before_bang after_bang
parse_name id modes [] prefix_to_mode = record { id = id; nick = []; host = []; modes = modes }
parse_name id modes (c ∷ name) prefix_to_mode = elim (lookup c prefix_to_mode) [
  | none ↦ record {
    id = id;
    nick = before_bang (c ∷ name);
    host = after_bang (c ∷ name);
    modes = modes;
  }
  | some mode ↦ parse_name id (insert_mode mode modes) name prefix_to_mode
]

-- `IrcUser(name, prefix_to_mode)`
unfoldable pub make_user : ℕ → Bytes → List (ℕ × ℕ) → IrcUser
unfolding parse_name
make_user id name prefix_to_mode = parse_name id [] name prefix_to_mode

-- `IrcUser(name).nick`
unfoldable pub nick_of : Bytes → Bytes
unfolding before_bang
nick_of name = before_bang name

unfoldable pub host_of : Bytes → Bytes
unfolding after_bang
host_of name = after_bang name

unfoldable pub add_mode : ℕ → IrcUser → IrcUser
unfolding insert_mode
add_mode mode user = record user { modes = insert_mode mode user.modes }

unfoldable pub remove_mode : ℕ → IrcUser → IrcUser
unfolding erase_mode
remove_mode mode user = record user { modes = erase_mode mode user.modes }

-- The first of the modes that the user has, or the NUL character.
unfoldable pub get_most_significant_mode : IrcUser → List ℕ → ℕ
get_most_significant_mode user [] = 0
get_most_significant_mode user (mode ∷ modes) =
    if has_char mode user.modes then mode else get_most_significant_mode user modes
