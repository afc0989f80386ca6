-- ===== src/Utils/Strings.antt =====
-- src/utils/tolower.cpp, revstr.cpp, split.cpp, string.cpp and `get_next_codepoint_size` of
-- src/utils/encoding.cpp.
pub mod Cut
pub mod Split
use Prim.Native.Nat.{bit_and}
use mathlib.Core.List.{reverse}
use biboumi.Base.{
  ℕ, zero, suc, ◌+◌, Bool, not, ◌&&◌, ◌||◌, Option, none, some, List, [], ◌∷◌, ◌++◌, map, ltb, leb,
  ◌==◌, if◌then◌else◌, Bytes, codes, eq_bytes, is_empty, length, get_elem?, take, drop,
}

-- `std::tolower` in the "C" locale.
abbrev lower_char : ℕ → ℕ
lower_char c = if leb b'A' c && leb c b'Z' then c + 32 else c

unfoldable pub tolower : Bytes → Bytes
tolower original = map lower_char original

unfoldable pub revstr : Bytes → Bytes
revstr original = reverse original

unfoldable pub to_bool : Bytes → Bool
unfolding eq_bytes
to_bool val = eq_bytes val (codes "1") || eq_bytes val (codes "true")

-- `std::getline` in a loop: `item` holds what was read of the current item. At the end of the
-- input an item with no character is not an item.
unfoldable pub split_onto : Bytes → Bytes → ℕ → Bool → List Bytes
split_onto item [] delim allow_empty = if is_empty item then [] else item ∷ []
split_onto item (c ∷ s) delim allow_empty =
    let rest = split_onto [] s delim allow_empty in
    let longer = split_onto (item ++ c ∷ []) s delim allow_empty in
    if c == delim then (if is_empty item && not allow_empty then rest else item ∷ rest) else longer

unfoldable pub split : Bytes → ℕ → Bool → List Bytes
unfolding split_onto
split s delim allow_empty = split_onto [] s delim allow_empty

unfoldable pub get_next_codepoint_size : ℕ → ℕ
get_next_codepoint_size c =
    if bit_and c 0b11111000 == 0b11110000
    then 4
    else if bit_and c 0b11110000 == 0b11100000
    then 3
    else if bit_and c 0b11100000 == 0b11000000
    then 2
    else 1

-- The codepoint that starts at `val[s]`. At the end of the string the byte read is the NUL; past
-- it (after a truncated sequence) the loop stops whatever is read.
unfoldable pub codepoint_size_at : Bytes → ℕ → ℕ
unfolding get_next_codepoint_size
codepoint_size_at val s = elim (get_elem? val s) [ none ↦ 1 | some c ↦ get_next_codepoint_size c ]

-- The inner loop of `cut`, over the bytes from `pos` on. A round advances `s`, so as many rounds
-- as there are bytes are enough.
unfoldable pub whole_codepoints : ℕ → Bytes → ℕ → ℕ → ℕ
unfolding codepoint_size_at
whole_codepoints zero val size s = s
whole_codepoints (suc fuel) val size s =
    let next = whole_codepoints fuel val size (s + codepoint_size_at val s) in
    if leb (s + codepoint_size_at val s) size && ltb s (length val) then next else s

-- The outer loop, over the bytes that are left; `none` when the rounds run out.
unfoldable pub cut_loop : ℕ → Bytes → ℕ → Option (List Bytes)
unfolding whole_codepoints
cut_loop fuel [] size = some []
cut_loop zero (c ∷ val) size = none
cut_loop (suc fuel) (c ∷ val) size =
    let s = whole_codepoints (length (c ∷ val)) (c ∷ val) size 0 in
    elim (cut_loop fuel (drop s (c ∷ val)) size) [
      | none ↦ none
      | some res ↦ some (take s (c ∷ val) ∷ res)
    ]

unfoldable pub cut : Bytes → ℕ → Option (List Bytes)
unfolding cut_loop
cut val size = cut_loop (length val) val size
