-- ===== src/Utils/Strings/Split.antt =====
-- What `split` returns.
use biboumi.Base.{ℕ, Bool, false, [], ◌∷◌, ◌++◌, ◌≡◌, refl, arith, ◌==◌, Bytes, has_char, All}
use biboumi.Utils.Strings.{split_onto, split}

pub has_char-append_ne :
    (d c : ℕ) (s : Bytes)
    → (c == d) ≡ false
    → has_char d s ≡ false
    → has_char d (s ++ c ∷ []) ≡ false
unfolding has_char
has_char-append_ne d c [] ne h = ground arith
has_char-append_ne d c (x ∷ s) ne h = ground (arith, has_char-append_ne d c s ne)

abbrev pub Lacks : ℕ → Bytes → Type 0
Lacks d s = has_char d s ≡ false

split_onto-Lacks :
    (s item : Bytes) (d : ℕ) (e : Bool) → Lacks d item → All (Lacks d) (split_onto item s d e)
unfolding split_onto
split_onto-Lacks [] [] d e h = tt
split_onto-Lacks [] (x ∷ item) d e h = (h, tt)
split_onto-Lacks (c ∷ s) item d e h = ground (
  arith,
  split_onto-Lacks s [] d e (unfold has_char in refl),
  split_onto-Lacks s (item ++ c ∷ []) d e,
  has_char-append_ne d c item,
)

-- No item that `split` returns holds the delimiter.
pub split-Lacks : (s : Bytes) (d : ℕ) (e : Bool) → All (Lacks d) (split s d e)
unfolding split
split-Lacks s d e = split_onto-Lacks s [] d e (unfold has_char in refl)
