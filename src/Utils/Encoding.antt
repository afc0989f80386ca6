-- ===== src/Utils/Encoding.antt =====
-- src/utils/encoding.cpp: UTF-8 and XEP-0106. `convert_to_utf8`, which calls iconv, is left out.
-- A C string is read up to its NUL; past the end of the list every read gives the NUL.
pub mod Utf8
use Prim.Native.Nat.{bit_and}
use biboumi.Base.{
  ℕ, zero, suc, ◌+◌, ◌*◌, ◌%◌, ◌^◌, Bool, true, false, not, ◌&&◌, ◌||◌, Option, none, some, List,
  [], ◌∷◌, ◌++◌, ltb, leb, ◌==◌, if◌then◌else◌, Bytes, codes, length, take, drop, lookup, nat_eq,
}
use biboumi.Utils.Strings.{get_next_codepoint_size}

abbrev pub byte_at : Bytes → ℕ → ℕ
byte_at [] i = 0
byte_at (c ∷ s) zero = c
byte_at (c ∷ s) (suc i) = byte_at s i

-- `!str[i] || (str[i] & 0b11000000) != 0b10000000`
unfoldable pub bad_continuation : Bytes → ℕ → Bool
bad_continuation s i = byte_at s i == 0 || not (bit_and (byte_at s i) 0b11000000 == 0b10000000)

unfoldable pub bad_sequence : Bytes → Bool
unfolding get_next_codepoint_size bad_continuation
bad_sequence str =
    if get_next_codepoint_size (byte_at str 0) == 4
    then bad_continuation str 1 || bad_continuation str 2 || bad_continuation str 3
    else if get_next_codepoint_size (byte_at str 0) == 3
    then bad_continuation str 1 || bad_continuation str 2
    else if get_next_codepoint_size (byte_at str 0) == 2
    then bad_continuation str 1
    else not (bit_and (byte_at str 0) 0b10000000 == 0)

-- The loop: each round goes on by a byte at least, so the length of the text is rounds enough.
unfoldable pub is_valid_utf8_loop : ℕ → Bytes → Bool
unfolding bad_sequence
is_valid_utf8_loop zero str = true
is_valid_utf8_loop (suc fuel) str =
    let rest = is_valid_utf8_loop fuel (drop (get_next_codepoint_size (byte_at str 0)) str) in
    if byte_at str 0 == 0 then true else if bad_sequence str then false else rest

unfoldable pub is_valid_utf8 : Bytes → Bool
unfolding is_valid_utf8_loop
is_valid_utf8 s = is_valid_utf8_loop (length s) s

-- `std::bitset<20>` keeps the low 20 bits of what is assigned to it.
abbrev pub bitset20 : ℕ → ℕ
bitset20 n = n % 2 ^ 20

-- `x & (2^k - 1)` is `x % 2^k`, and the fields are disjoint, so `|=` is a sum.
unfoldable pub codepoint4 : Bytes → ℕ
codepoint4 str =
    bitset20 (byte_at str 0 % 8 * 2 ^ 18)
    + bitset20 (byte_at str 1 % 64 * 2 ^ 12)
    + bitset20 (byte_at str 2 % 64 * 2 ^ 6)
    + bitset20 (byte_at str 3 % 64)

unfoldable pub codepoint3 : Bytes → ℕ
codepoint3 str =
    bitset20 (byte_at str 0 % 16 * 2 ^ 12)
    + bitset20 (byte_at str 1 % 64 * 2 ^ 6)
    + bitset20 (byte_at str 2 % 64)

-- Whether a sequence of that many bytes is copied; the bytes that are copied are `str[0..n)`.
unfoldable pub keeps4 : Bytes → Bool
unfolding codepoint4
keeps4 str = leb (codepoint4 str) 0x10FFFF

unfoldable pub keeps3 : Bytes → Bool
unfolding codepoint3
keeps3 str =
    leb (codepoint3 str) 0xD7FF || (leb 0xE000 (codepoint3 str) && leb (codepoint3 str) 0xFFFD)

unfoldable pub keeps1 : ℕ → Bool
keeps1 c = c == 0x09 || c == 0x0A || c == 0x0D || leb 0x20 c

abbrev copied : Bool → ℕ → Bytes → Option Bytes → Option Bytes
copied keep n str none = none
copied keep n str (some out) = some ((if keep then take n str else []) ++ out)

-- `none` is the exception that a byte starts no sequence. The rounds are bounded as above.
unfoldable pub remove_invalid_xml_chars_loop : ℕ → Bytes → Option Bytes
unfolding keeps4 keeps3 keeps1
remove_invalid_xml_chars_loop zero str = some []
remove_invalid_xml_chars_loop (suc fuel) str =
    let four = copied (keeps4 str) 4 str (remove_invalid_xml_chars_loop fuel (drop 4 str)) in
    let three = copied (keeps3 str) 3 str (remove_invalid_xml_chars_loop fuel (drop 3 str)) in
    let two = copied true 2 str (remove_invalid_xml_chars_loop fuel (drop 2 str)) in
    let one =
      copied (keeps1 (byte_at str 0)) 1 str (remove_invalid_xml_chars_loop fuel (drop 1 str)) in
    if byte_at str 0 == 0
    then some []
    else if bit_and (byte_at str 0) 0b11111000 == 0b11110000
    then four
    else if bit_and (byte_at str 0) 0b11110000 == 0b11100000
    then three
    else if bit_and (byte_at str 0) 0b11100000 == 0b11000000
    then two
    else if bit_and (byte_at str 0) 0b10000000 == 0
    then one
    else none

unfoldable pub remove_invalid_xml_chars : Bytes → Option Bytes
unfolding remove_invalid_xml_chars_loop
remove_invalid_xml_chars original = remove_invalid_xml_chars_loop (length original) original

-- XEP-0106. The map, each character with its escape.
abbrev pub encode_map : List (ℕ × Bytes)
encode_map =
    (b' ', codes "\\20")
    ∷ (b'"', codes "\\22")
    ∷ (b'&', codes "\\26")
    ∷ (b'\'', codes "\\27")
    ∷ (b'/', codes "\\2f")
    ∷ (b':', codes "\\3a")
    ∷ (b'<', codes "\\3c")
    ∷ (b'>', codes "\\3e")
    ∷ (b'@', codes "\\40")
    ∷ []

-- The loop of `encode`: no escape holds a character of the map, so the first such character is
-- always behind what was replaced before.
unfoldable pub encode : Bytes → Bytes
encode [] = []
encode (c ∷ s) = elim (lookup c encode_map) [
  | none ↦ c ∷ encode s
  | some escape ↦ escape ++ encode s
]

-- The inner loop of `decode`, for the escape `\ h l` of the character `c`. What replaces an escape
-- is part of no escape, so the next one is behind it.
unfoldable pub decode_pair : ℕ → ℕ → ℕ → Bytes → Bytes
decode_pair c h l [] = []
decode_pair c h l (x ∷ []) = x ∷ []
decode_pair c h l (x ∷ y ∷ []) = x ∷ y ∷ []
decode_pair c h l (x ∷ y ∷ z ∷ s) =
    let found = c ∷ decode_pair c h l s in
    let other = x ∷ decode_pair c h l (y ∷ z ∷ s) in
    if x == b'\\' && y == h && z == l then found else other

unfoldable pub decode : Bytes → Bytes
unfolding decode_pair
decode s = decode_pair b'@' b'4' b'0' (
    decode_pair b'>' b'3' b'e' (
      decode_pair b'<' b'3' b'c' (
        decode_pair b':' b'3' b'a' (
          decode_pair b'/' b'2' b'f' (
            decode_pair b'\'' b'2' b'7' (
              decode_pair b'&' b'2' b'6'
                (decode_pair b'"' b'2' b'2' (decode_pair b' ' b'2' b'0' s))))))))
