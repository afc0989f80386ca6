-- ===== src/Bridge/Colors/Text.antt =====
-- The text of the XHTML that `irc_format_to_xhtmlim` makes.
use mathlib.Core.List.{append_assoc, append-nil}
use biboumi.Base.{
  ℕ, zero, suc, false, Option, none, some, [], ◌∷◌, ◌++◌, ◌≡◌, refl, ap, sym, ◌∙◌, arith, ◌==◌,
  if◌then◌else◌, Bytes, codes, eq_bytes, Bool-cases, Option-cases, inl, inr, is_empty, length,
}
use biboumi.Xmpp.Node.{
  XmlNode, XmlNodes, node, nil, cons, get_name, split_namespace, make_node, set_attribute,
  push_back, add_child, add_to_tail, add_to_inner, add_to_last_tail, append_text,
}
use biboumi.Bridge.Colors.{
  Format, Styles, on_current, put_text, put_newline, close_span, open_span, apply_format,
  apply_color, format_round, format_loop, next_format, styles_text, start_format,
  irc_format_to_xhtmlim,
}

abbrev tail_of : XmlNode → Bytes
tail_of (node name attributes inner children tail) = tail

-- What a reader sees of a node: its texts in order, and a newline for each `br`.
unfoldable mutual
  pub text_of : XmlNode → Bytes
  text_of (node name attributes inner children tail) =
      if eq_bytes name (codes "br") then b'\n' ∷ [] else inner ++ texts_of children

  pub texts_of : XmlNodes → Bytes
  texts_of nil = []
  texts_of (cons x xs) = text_of x ++ (tail_of x ++ texts_of xs)

texts_of-push_back :
    (x : XmlNode) (xs : XmlNodes)
    → texts_of (push_back x xs) ≡ texts_of xs ++ (text_of x ++ tail_of x)
unfolding text_of texts_of push_back
texts_of-push_back x nil = simp append-nil
texts_of-push_back x (cons y xs) = simp (texts_of-push_back x xs, append_assoc)

texts_of-add_to_last_tail :
    (t : Bytes) (y : XmlNode) (xs : XmlNodes)
    → texts_of (add_to_last_tail t (cons y xs)) ≡ texts_of (cons y xs) ++ t
unfolding text_of texts_of add_to_last_tail add_to_tail
texts_of-add_to_last_tail t (node name attributes inner children tail) nil =
    simp (append_assoc, append-nil)
texts_of-add_to_last_tail t (node name attributes inner children tail) (cons z xs) =
    simp (texts_of-add_to_last_tail t z xs, append_assoc)

-- A node that is not a `br` and that nothing follows: the body, or a span.
IsOpen : XmlNode → Type 0
IsOpen n = (eq_bytes (get_name n) (codes "br") ≡ false) × (tail_of n ≡ [])

append_text-text_of :
    (t : Bytes) (n : XmlNode)
    → IsOpen n
    → (text_of (append_text t n) ≡ text_of n ++ t) × IsOpen (append_text t n)
unfolding IsOpen text_of texts_of add_to_inner
append_text-text_of t (node name attributes inner nil tail) (e, h) =
    (rw e (simp (append_assoc, append-nil)), (e, h))
append_text-text_of t (node name attributes inner (cons y xs) tail) (e, h) =
    (rw e (simp (texts_of-add_to_last_tail t y xs, append_assoc)), (e, h))

add_child-text_of :
    (x n : XmlNode)
    → IsOpen n
    → (text_of (add_child x n) ≡ text_of n ++ (text_of x ++ tail_of x)) × IsOpen (add_child x n)
unfolding IsOpen text_of texts_of add_child
add_child-text_of x (node name attributes inner children tail) (e, h) =
    (rw e (simp (texts_of-push_back x children, append_assoc)), (e, h))

-- What was read so far is the text of the body, and behind it the text of the span that is open.
span_text : Option XmlNode → Bytes
span_text none = []
span_text (some n) = text_of n

IsOpenSpan : Option XmlNode → Type 0
IsOpenSpan none = Unit
IsOpenSpan (some n) = IsOpen n

record Reads (s : Format) : Type 0 where
  body : IsOpen s.result
  open_span_ok : IsOpenSpan s.span
  same : s.cleaned ≡ text_of s.result ++ span_text s.span

reads :
    (cleaned : Bytes) (result : XmlNode) (span : Option XmlNode) (styles : Styles)
    → IsOpen result
    → IsOpenSpan span
    → cleaned ≡ text_of result ++ span_text span
    → Reads (record { cleaned = cleaned; result = result; span = span; styles = styles })
reads cleaned result span styles b o e = record { body = b; open_span_ok = o; same = e }

tail_empty : (xs t : Bytes) → (xs ++ []) ++ t ≡ (xs ++ t) ++ []
tail_empty xs t = simp append-nil

-- Text, or a child, behind what the current node holds.
current-Reads :
    (f : XmlNode → XmlNode) (t cleaned : Bytes) (result : XmlNode) (span : Option XmlNode)
    (styles : Styles)
    → ((n : XmlNode) → IsOpen n → (text_of (f n) ≡ text_of n ++ t) × IsOpen (f n))
    → Reads (record { cleaned = cleaned; result = result; span = span; styles = styles })
    → Reads (
        on_current f
          (record { cleaned = cleaned ++ t; result = result; span = span; styles = styles }))
unfolding span_text IsOpenSpan
current-Reads f t cleaned result none styles law r =
    reads _ _ none styles (law result r.body).1 tt (
      ap (λ z. z ++ t) r.same
      ∙ tail_empty (text_of result) t
      ∙ ap (λ z. z ++ []) (sym (law result r.body).0))
current-Reads f t cleaned result (some n) styles law r =
    reads _ _ (some (f n)) styles r.body (law n r.open_span_ok).1 (
      ap (λ z. z ++ t) r.same
      ∙ append_assoc (text_of result) (text_of n) t
      ∙ ap (λ z. text_of result ++ z) (sym (law n r.open_span_ok).0))

put_text-Reads : (t : Bytes) (s : Format) → Reads s → Reads (put_text t s)
unfolding put_text
put_text-Reads t s r =
    current-Reads (append_text t) t s.cleaned s.result s.span s.styles (append_text-text_of t) r

br-text_of :
    (n : XmlNode)
    → IsOpen n
    → (text_of (add_child (make_node (codes "br")) n) ≡ text_of n ++ b'\n' ∷ [])
      × IsOpen (add_child (make_node (codes "br")) n)
unfolding text_of texts_of make_node split_namespace eq_bytes
br-text_of n o = add_child-text_of (make_node (codes "br")) n o

put_newline-Reads : (s : Format) → Reads s → Reads (put_newline s)
unfolding put_newline
put_newline-Reads s r =
    current-Reads (add_child (make_node (codes "br"))) (b'\n' ∷ []) s.cleaned s.result s.span
      s.styles br-text_of r

-- A closed span becomes the last child of the body.
HasNoSpan : Format → Type 0
HasNoSpan s = s.span ≡ none

closed-Reads :
    (c : Bytes) (b : XmlNode) (span : Option XmlNode) (t : Styles)
    → Reads (record { cleaned = c; result = b; span = span; styles = t })
    → Reads (close_span (record { cleaned = c; result = b; span = span; styles = t }))
      × HasNoSpan (close_span (record { cleaned = c; result = b; span = span; styles = t }))
unfolding close_span HasNoSpan IsOpenSpan IsOpen span_text
closed-Reads c b none t r = (r, refl)
closed-Reads c b (some n) t r = (
  reads c (add_child n b) none t (add_child-text_of n b r.body).1 tt (
      r.same
      ∙ ap (λ z. text_of b ++ z)
          (sym (append-nil (text_of n)) ∙ ap (λ z. text_of n ++ z) (sym r.open_span_ok.1))
      ∙ sym (append-nil _ ∙ (add_child-text_of n b r.body).0)),
  refl,
)

close_span-Reads : (s : Format) → Reads s → Reads (close_span s) × HasNoSpan (close_span s)
close_span-Reads s r = closed-Reads s.cleaned s.result s.span s.styles r

opened-Reads :
    (c : Bytes) (b : XmlNode) (span : Option XmlNode) (t : Styles)
    → HasNoSpan (record { cleaned = c; result = b; span = span; styles = t })
    → Reads (record { cleaned = c; result = b; span = span; styles = t })
    → Reads (open_span (record { cleaned = c; result = b; span = span; styles = t }))
unfolding open_span HasNoSpan IsOpenSpan IsOpen text_of texts_of span_text set_attribute make_node
    split_namespace eq_bytes
opened-Reads c b (some n) t e r = ground arith
opened-Reads c b none t e r = elim (Bool-cases (is_empty (styles_text t))) [
  | inl h ↦ rw h r
  | inr h ↦ rw h (
      reads c b (some (set_attribute (codes "style") (styles_text t) (make_node (codes "span")))) t
        r.body (refl, refl) r.same)
]

open_span-Reads : (s : Format) → HasNoSpan s → Reads s → Reads (open_span s)
open_span-Reads s e r = opened-Reads s.cleaned s.result s.span s.styles e r

-- What changes the styles only.
restyled-Reads : (styles : Styles) (s : Format) → Reads s → Reads (record s { styles = styles })
restyled-Reads styles s r = reads s.cleaned s.result s.span styles r.body r.open_span_ok r.same

apply_format-Reads : (c : ℕ) (s : Format) → Reads s → Reads (apply_format c s)
unfolding apply_format
apply_format-Reads c s r = grind (arith, put_newline-Reads, restyled-Reads)

respan-Reads : (s : Format) → Reads s → Reads (open_span (close_span s))
respan-Reads s r = let (q, h) = close_span-Reads s r in open_span-Reads (close_span s) h q

format_round-Reads :
    (txt : Bytes) (c : ℕ) (rest : Bytes) (s : Format)
    → Reads s
    → Reads (format_round txt c rest s).0
unfolding format_round apply_color
format_round-Reads txt c rest s r = elim (Bool-cases (c == 0x03)) [
  | inl h ↦ rw h (respan-Reads _ (restyled-Reads _ _ (put_text-Reads txt s r)))
  | inr h ↦ rw h (respan-Reads _ (apply_format-Reads c _ (put_text-Reads txt s r)))
]

format_loop-Reads : (n : ℕ) (text : Bytes) (s : Format) → Reads s → Reads (format_loop n text s)
unfolding format_loop
format_loop-Reads zero text s r = put_text-Reads text s r
format_loop-Reads (suc n) text s r = elim (Option-cases (next_format text)) [
  | inl h ↦ rw (h, format_loop) (put_text-Reads text s r)
  | inr ((txt, c, rest), h) ↦
      rw (h, format_loop) (format_loop-Reads n _ _ (format_round-Reads txt c rest s r))
]

-- Without a span, the body says what was read.
closed-text_of : (s : Format) → HasNoSpan s × Reads s → text_of s.result ≡ s.cleaned
unfolding HasNoSpan span_text
closed-text_of s (e, r) =
    sym (append-nil _) ∙ ap (λ z. text_of s.result ++ span_text z) (sym e) ∙ sym r.same

start-Reads : Reads start_format
unfolding IsOpen IsOpenSpan text_of texts_of span_text set_attribute make_node split_namespace
    eq_bytes
start-Reads = record { body = (refl, refl); open_span_ok = tt; same = refl }

-- When a message has XHTML, the text of the XHTML (with a newline for each `br`) is the plain text
-- that goes into the body.
pub irc_format_to_xhtmlim-text_of :
    (s : Bytes) (n : XmlNode)
    → (irc_format_to_xhtmlim s).1 ≡ some n
    → text_of n ≡ (irc_format_to_xhtmlim s).0
unfolding irc_format_to_xhtmlim
irc_format_to_xhtmlim-text_of s n h = elim (Option-cases (next_format s)) [
  | inl e ↦ ground arith
  | inr (first, e) ↦
      let closed = closed-text_of (close_span (format_loop (length s) s start_format)) (
        let (q, k) = close_span-Reads _ (format_loop-Reads (length s) s start_format start-Reads) in
        (k, q)) in
      ground arith
]
