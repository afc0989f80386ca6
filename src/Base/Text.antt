-- ===== src/Base/Text.antt =====
-- Strings as lists of bytes: literals, equality, order, searching and slicing.
use Prim.Native.Nat.{ℕ}
use Prim.Native.Char.{code}
use Prim.Native.String.{String}
use mathlib.Core.Path.{◌≡◌, refl}
use mathlib.Core.Logic.{◌↔◌}
use mathlib.Core.Bool.{Bool, true, false, ◌&&◌, ◌||◌}
use mathlib.Core.List.{List, [], ◌∷◌, ◌++◌}
use mathlib.Core.Option.{Option, none, some}
use native.Mathlib.Omega.{arith}
use biboumi.Base.Tests.{ltb, ◌==◌, if◌then◌else◌, Eq}

abbrev pub Bytes : Type 0
Bytes = List ℕ

-- The bytes of an ASCII literal.
abbrev pub codes : String → Bytes
codes String.[] = []
codes (String.◌∷◌ c s) = code c ∷ codes s

unfoldable pub eq_bytes : Bytes → Bytes → Bool
eq_bytes [] [] = true
eq_bytes (x ∷ xs) (y ∷ ys) = x == y && eq_bytes xs ys
eq_bytes _ _ = false

pub eq_bytes_iff : (a b : Bytes) → (eq_bytes a b ≡ true) ↔ (a ≡ b)
unfolding eq_bytes
eq_bytes_iff (x ∷ a) (y ∷ b) = ground (arith, eq_bytes_iff a b)
eq_bytes_iff _ _ = ground arith

pub eq_bytes_refl : (a : Bytes) → eq_bytes a a ≡ true
eq_bytes_refl a = (eq_bytes_iff a a).1 refl

instance abbrev pub bytes_eq : Eq Bytes
bytes_eq = record { beq = eq_bytes; beq_iff = eq_bytes_iff }

abbrev pub eq_pair : Bytes × Bytes → Bytes × Bytes → Bool
eq_pair (a, b) (c, d) = eq_bytes a c && eq_bytes b d

pub eq_pair_iff : (p q : Bytes × Bytes) → (eq_pair p q ≡ true) ↔ (p ≡ q)
eq_pair_iff (a, b) (c, d) = ground (arith, eq_bytes_iff a c, eq_bytes_iff b d)

instance abbrev pub pair_eq : Eq (Bytes × Bytes)
pair_eq = record { beq = eq_pair; beq_iff = eq_pair_iff }

-- `operator<` of `std::string`.
unfoldable pub lt_bytes : Bytes → Bytes → Bool
lt_bytes [] [] = false
lt_bytes [] (y ∷ ys) = true
lt_bytes (x ∷ xs) [] = false
lt_bytes (x ∷ xs) (y ∷ ys) = ltb x y || (x == y && lt_bytes xs ys)

abbrev pub is_empty : Bytes → Bool
is_empty [] = true
is_empty (x ∷ xs) = false

-- What stands in front of the first `c` and behind it: `substr` at `s.find(c)`.
unfoldable pub cut_at : ℕ → Bytes → Option (Bytes × Bytes)
cut_at c [] = none
cut_at c (x ∷ xs) =
    if x == c
    then some ([], xs)
    else elim (cut_at c xs) [ none ↦ none | some (l, r) ↦ some (x ∷ l, r) ]

-- Whether the byte occurs: `s.find(c) != npos`, and `count(c)` of a set of characters.
unfoldable pub has_char : ℕ → Bytes → Bool
has_char c [] = false
has_char c (x ∷ xs) = x == c || has_char c xs

-- `s.substr(0, p.size()) == p`
unfoldable pub starts_with : Bytes → Bytes → Bool
starts_with [] s = true
starts_with (x ∷ p) [] = false
starts_with (x ∷ p) (y ∷ s) = x == y && starts_with p s

pub cut_at-append :
    (c : ℕ) (s t : Bytes) → has_char c s ≡ false → cut_at c (s ++ c ∷ t) ≡ some (s, t)
unfolding cut_at has_char
cut_at-append c [] t h = ground arith
cut_at-append c (x ∷ s) t h = ground (arith, cut_at-append c s t)

pub cut_at-none : (c : ℕ) (s : Bytes) → has_char c s ≡ false → cut_at c s ≡ none
unfolding cut_at has_char
cut_at-none c [] h = refl
cut_at-none c (x ∷ s) h = ground (arith, cut_at-none c s)

pub has_char-append : (c : ℕ) (s t : Bytes) → has_char c (s ++ t) ≡ (has_char c s || has_char c t)
unfolding has_char
has_char-append c [] t = refl
has_char-append c (x ∷ s) t = ground (arith, has_char-append c s t)
