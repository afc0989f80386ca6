-- ===== src/Bridge/Colors/Clean.antt =====
-- The plain text that `irc_format_to_xhtmlim` (bridge/colors.cpp) makes.
use std.Path.{subst}
use biboumi.Base.{
  ℕ, zero, suc, true, Option, none, some, [], ◌∷◌, ◌++◌, ◌≡◌, refl, sym, ◌∙◌, arith, ◌==◌, Bytes,
  codes, has_char, Bool-cases, Option-cases, inl, inr, length, ◌≤◌, ◌<◌,
}
use biboumi.Bridge.Colors.{
  Format, irc_format_char, on_current, put_text, put_newline, close_span, open_span, apply_format,
  apply_color, format_round, format_loop, next_format, read_color, read_background, start_format,
  irc_format_to_xhtmlim,
}
use biboumi.Xmpp.Node.{XmlNode, append_text, add_child, make_node}

-- Every format character of the text is a newline.
pub IsClean : Bytes → Type 0
IsClean [] = Unit
IsClean (c ∷ s) = (has_char c irc_format_char ≡ true → c ≡ b'\n') × IsClean s

IsClean-append : (s t : Bytes) → IsClean s → IsClean t → IsClean (s ++ t)
unfolding IsClean
IsClean-append [] t h k = k
IsClean-append (c ∷ s) t (h, hs) k = (h, IsClean-append s t hs k)

-- What `next_format` finds.
Found : Bytes → Option (Bytes × ℕ × Bytes) → Type 0
Found s none = IsClean s
Found s (some (txt, c, rest)) = IsClean txt × (length rest < length s)

suc_lt : {m n : ℕ} → m < n → m < suc n
suc_lt h = omega arith

next_format-Found : (s : Bytes) → Found s (next_format s)
unfolding Found IsClean next_format
next_format-Found [] = tt
next_format-Found (c ∷ s) = elim (Bool-cases (has_char c irc_format_char)) [
  | inl h ↦ rw h (tt, ground arith)
  | inr h ↦
      let ih = next_format-Found s in
      elim (Option-cases (next_format s)) [
        | inl e ↦ rw (h, e) (λ k. ground arith, subst (Found s) e ih)
        | inr (f, e) ↦
            rw (h, e)
              ((λ k. ground arith, (subst (Found s) e ih).0), suc_lt (subst (Found s) e ih).1)
      ]
]

read_color-length : (s : Bytes) → length (read_color s).1 ≤ length s
unfolding read_color
read_color-length [] = ground arith
read_color-length (c ∷ s) = ground arith

read_background-length : (s : Bytes) → length (read_background s).1 ≤ length s
unfolding read_background
read_background-length [] = ground arith
read_background-length (c ∷ s) = ground arith

-- A change of the current node leaves the plain text.
on_current-cleaned : (f : XmlNode → XmlNode) (s : Format) → (on_current f s).cleaned ≡ s.cleaned
on_current-cleaned f s = elim (Option-cases s.span) [ inl e ↦ rw e refl | inr (n, e) ↦ rw e refl ]

close_span-cleaned : (s : Format) → (close_span s).cleaned ≡ s.cleaned
unfolding close_span
close_span-cleaned s = elim (Option-cases s.span) [ inl e ↦ rw e refl | inr (n, e) ↦ rw e refl ]

open_span-cleaned : (s : Format) → (open_span s).cleaned ≡ s.cleaned
unfolding open_span
open_span-cleaned s = ground arith

put_text-cleaned : (t : Bytes) (s : Format) → (put_text t s).cleaned ≡ s.cleaned ++ t
unfolding put_text
put_text-cleaned t s = on_current-cleaned (append_text t) (record s { cleaned = s.cleaned ++ t })

newline-IsClean : (s : Format) → IsClean s.cleaned → IsClean (put_newline s).cleaned
unfolding put_newline IsClean
newline-IsClean s h =
    subst IsClean
      (sym (
        on_current-cleaned (add_child (make_node (codes "br")))
          (record s { cleaned = s.cleaned ++ b'\n' ∷ [] })))
      (IsClean-append s.cleaned (b'\n' ∷ []) h ((λ k. refl), tt))

apply_format-IsClean : (c : ℕ) (s : Format) → IsClean s.cleaned → IsClean (apply_format c s).cleaned
unfolding apply_format
apply_format-IsClean c s h = let k = newline-IsClean s h in ground arith

respan-IsClean : (s : Format) → IsClean s.cleaned → IsClean (open_span (close_span s)).cleaned
respan-IsClean s = subst IsClean (sym (open_span-cleaned (close_span s) ∙ close_span-cleaned s))

put_text-IsClean :
    (t : Bytes) (s : Format) → IsClean t → IsClean s.cleaned → IsClean (put_text t s).cleaned
put_text-IsClean t s k h =
    subst IsClean (sym (put_text-cleaned t s)) (IsClean-append s.cleaned t h k)

format_round-IsClean :
    (txt : Bytes) (c : ℕ) (rest : Bytes) (s : Format)
    → IsClean txt
    → IsClean s.cleaned
    → IsClean (format_round txt c rest s).0.cleaned
unfolding format_round apply_color
format_round-IsClean txt c rest s k h = elim (Bool-cases (c == 0x03)) [
  | inl e ↦
      let (fg, rest') = read_color rest in
      let (bg, rest'') = read_background rest' in
      rw e (respan-IsClean (apply_color fg bg (put_text txt s)) (put_text-IsClean txt s k h))
  | inr e ↦ rw e (
      respan-IsClean (apply_format c (put_text txt s))
        (apply_format-IsClean c (put_text txt s) (put_text-IsClean txt s k h)))
]

format_round-length :
    (txt : Bytes) (c : ℕ) (rest : Bytes) (s : Format)
    → length (format_round txt c rest s).1 ≤ length rest
unfolding format_round
format_round-length txt c rest s =
    let a = read_color-length rest in
    let b = read_background-length (read_color rest).1 in
    elim (Bool-cases (c == 0x03)) [ inl e ↦ rw e (omega arith) | inr e ↦ rw e (omega arith) ]

format_loop-IsClean :
    (n : ℕ) (text : Bytes) (s : Format)
    → length text ≤ n
    → IsClean s.cleaned
    → IsClean (format_loop n text s).cleaned
unfolding format_loop Found IsClean
format_loop-IsClean zero [] s k h = put_text-IsClean [] s tt h
format_loop-IsClean zero (c ∷ text) s k h = absurd (omega arith)
format_loop-IsClean (suc n) text s k h =
    let found = next_format-Found text in
    elim (Option-cases (next_format text)) [
      | inl e ↦ rw (e, format_loop) (put_text-IsClean text s (subst (Found text) e found) h)
      | inr ((txt, c, rest), e) ↦
          let (clean, shorter) = subst (Found text) e found in
          let l = format_round-length txt c rest s in
          rw (e, format_loop)
            (format_loop-IsClean n (format_round txt c rest s).1 (format_round txt c rest s).0
              (omega arith) (format_round-IsClean txt c rest s clean h))
    ]

-- The plain text of a message has no formatting character but newlines: the loop, which runs on as
-- many rounds as the message has bytes, reads all of it.
pub irc_format_to_xhtmlim-IsClean : (s : Bytes) → IsClean (irc_format_to_xhtmlim s).0
unfolding irc_format_to_xhtmlim Found IsClean
irc_format_to_xhtmlim-IsClean s =
    let found = next_format-Found s in
    elim (Option-cases (next_format s)) [
      | inl e ↦ rw (e, irc_format_to_xhtmlim) (subst (Found s) e found)
      | inr (f, e) ↦
          rw (e, irc_format_to_xhtmlim)
            (subst IsClean (sym (close_span-cleaned (format_loop (length s) s start_format)))
              (format_loop-IsClean (length s) s start_format (omega arith) tt))
    ]
