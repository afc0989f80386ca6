-- ===== src/Utils/Strings/Cut.antt =====
-- The pieces that `cut` of src/utils/string.cpp returns.
use biboumi.Base.{
  ℕ, zero, suc, ◌+◌, ◌≤◌, ◌<◌, none, some, List, [], ◌∷◌, ◌++◌, ◌≡◌, refl, ap, ◌∙◌, arith, Bytes,
  length, take, drop, length-take, length-drop, take-append-drop, All,
}
use mathlib.Core.List.{flatten}
use biboumi.Utils.Strings.{
  get_next_codepoint_size, codepoint_size_at, whole_codepoints, cut_loop, cut,
}

pub codepoint_size_at_bounds :
    (val : Bytes) (s : ℕ) → (1 ≤ codepoint_size_at val s) × (codepoint_size_at val s ≤ 4)
unfolding codepoint_size_at
codepoint_size_at_bounds val s = ground arith

whole_codepoints-le :
    (fuel : ℕ) (val : Bytes) (size s : ℕ) → s ≤ size → whole_codepoints fuel val size s ≤ size
unfolding whole_codepoints
whole_codepoints-le zero val size s h = h
whole_codepoints-le (suc fuel) val size s h =
    ground (arith, whole_codepoints-le fuel val size (s + codepoint_size_at val s))

whole_codepoints-ge : (fuel : ℕ) (val : Bytes) (size s : ℕ) → s ≤ whole_codepoints fuel val size s
unfolding whole_codepoints
whole_codepoints-ge zero val size s = omega arith
whole_codepoints-ge (suc fuel) val size s = ground (
  arith,
  whole_codepoints-ge fuel val size (s + codepoint_size_at val s),
  codepoint_size_at_bounds val s,
)

-- A round of `cut` takes at least one byte.
whole_codepoints_pos :
    (c : ℕ) (val : Bytes) (size : ℕ)
    → 4 ≤ size
    → 1 ≤ whole_codepoints (length (c ∷ val)) (c ∷ val) size 0
unfolding whole_codepoints
whole_codepoints_pos c val size h = ground (
  arith,
  codepoint_size_at_bounds (c ∷ val) 0,
  whole_codepoints-ge (length val) (c ∷ val) size (0 + codepoint_size_at (c ∷ val) 0),
)

-- What `cut` promises of its result.
pub record IsCut (val : Bytes) (size : ℕ) (res : List Bytes) : Type 0 where
  pub whole : flatten res ≡ val
  pub fits : All (λ piece. length piece ≤ size) res

cut_loop_total :
    (fuel : ℕ) (val : Bytes) (size : ℕ)
    → 4 ≤ size
    → length val ≤ fuel
    → (res : List Bytes) × (cut_loop fuel val size ≡ some res) × IsCut val size res
unfolding cut_loop flatten
cut_loop_total zero [] size h e = ([], refl, record { whole = refl; fits = tt })
cut_loop_total (suc fuel) [] size h e = ([], refl, record { whole = refl; fits = tt })
cut_loop_total zero (c ∷ val) size h e = absurd (omega arith)
cut_loop_total (suc fuel) (c ∷ val) size h e =
    let s = whole_codepoints (length (c ∷ val)) (c ∷ val) size 0 in
    let (res, ends, good) =
      cut_loop_total fuel (drop s (c ∷ val)) size h
        (omega (arith, length-drop s (c ∷ val), whole_codepoints_pos c val size h)) in
    (
      take s (c ∷ val) ∷ res,
      rw (ends, cut_loop),
      record {
        whole = ap (◌++◌ (take s (c ∷ val))) good.whole ∙ take-append-drop s (c ∷ val);
        fits = (
          omega (
            arith,
            length-take s (c ∷ val),
            whole_codepoints-le (length (c ∷ val)) (c ∷ val) size 0 (omega arith),
          ),
          good.fits,
        );
      },
    )

-- With room for every codepoint, four bytes, `cut` ends; its pieces put together are the text, and
-- no piece is longer than the size.
pub cut_total :
    (val : Bytes) (size : ℕ)
    → 4 ≤ size
    → (res : List Bytes) × (cut val size ≡ some res) × IsCut val size res
unfolding cut
cut_total val size h = cut_loop_total (length val) val size h (omega arith)

whole_codepoints_stuck :
    (fuel : ℕ) (val : Bytes) (size : ℕ)
    → size < codepoint_size_at val 0
    → whole_codepoints fuel val size 0 ≡ 0
unfolding whole_codepoints
whole_codepoints_stuck zero val size h = refl
whole_codepoints_stuck (suc fuel) val size h = ground arith

-- If the first codepoint is longer than the size, `cut` takes nothing off the text and goes round
-- for ever: no number of rounds is enough.
pub cut_diverges :
    (fuel : ℕ) (c : ℕ) (val : Bytes) (size : ℕ)
    → size < get_next_codepoint_size c
    → cut_loop fuel (c ∷ val) size ≡ none
unfolding cut_loop codepoint_size_at
cut_diverges zero c val size h = refl
cut_diverges (suc fuel) c val size h =
    rw (whole_codepoints_stuck_here, cut_loop) (rw (cut_diverges fuel c val size h, cut_loop))
  where
    whole_codepoints_stuck_here : whole_codepoints (length (c ∷ val)) (c ∷ val) size 0 ≡ 0
    whole_codepoints_stuck_here =
        whole_codepoints_stuck (length (c ∷ val)) (c ∷ val) size (unfold codepoint_size_at in h)
