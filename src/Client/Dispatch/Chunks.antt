-- ===== src/Client/Dispatch/Chunks.antt =====
-- How the bytes that arrive are cut into lines.
use biboumi.Base.{
  ℕ, zero, suc, ◌≤◌, ◌<◌, ◌≡◌, refl, sym, arith, some, [], ◌∷◌, ◌++◌, Bytes, Option-cases, inl, inr,
  length, length-append, ◌∙◌,
}
use biboumi.Client.Dispatch.{handle_line, cut_crlf, parse_lines, parse_in_buffer}
use biboumi.World.{World, Outcome, ok, thrown, fault, ◌>>=◌}

-- What is left behind a line is shorter than the buffer.
length-cut_crlf :
    (buf text rest : Bytes) → cut_crlf buf ≡ some (text, rest) → length rest < length buf
unfolding cut_crlf
length-cut_crlf [] text rest e = cc
length-cut_crlf (c ∷ []) text rest e = cc
length-cut_crlf (c ∷ d ∷ s) text rest e = elim (Option-cases (cut_crlf (d ∷ s))) [
  | inl none_later ↦ ground arith
  | inr (found, later) ↦ (let h = length-cut_crlf (d ∷ s) found.0 found.1 later in ground arith)
]

-- More bytes behind a line do not change it.
cut_crlf-append :
    (buf more text rest : Bytes)
    → cut_crlf buf ≡ some (text, rest)
    → cut_crlf (buf ++ more) ≡ some (text, rest ++ more)
unfolding cut_crlf
cut_crlf-append [] more text rest e = cc
cut_crlf-append (c ∷ []) more text rest e = cc
cut_crlf-append (c ∷ d ∷ s) more text rest e = elim (Option-cases (cut_crlf (d ∷ s))) [
  | inl none_later ↦ ground arith
  | inr (found, later) ↦
      (let h = cut_crlf-append (d ∷ s) more found.0 found.1 later in ground arith)
]

bind-cong :
    {A B : Type 0} (o : Outcome A) (f g : A → Outcome B)
    → ((a : A) → f a ≡ g a)
    → (o >>= f) ≡ (o >>= g)
bind-cong (ok a) f g h = h a
bind-cong (thrown w) f g h = refl
bind-cong (fault e) f g h = refl

bind_assoc :
    {A B C : Type 0} (o : Outcome A) (f : A → Outcome B) (g : B → Outcome C)
    → (o >>= f >>= g) ≡ (o >>= λ a. f a >>= g)
bind_assoc (ok a) f g = refl
bind_assoc (thrown w) f g = refl
bind_assoc (fault e) f g = refl

-- More rounds than the bytes of the buffer change nothing.
parse_lines-enough :
    (n k : ℕ) (buf : Bytes) (w : World)
    → length buf ≤ n
    → length buf ≤ k
    → parse_lines n buf w ≡ parse_lines k buf w
unfolding parse_lines cut_crlf
parse_lines-enough zero zero buf w hn hk = refl
parse_lines-enough zero (suc k) [] w hn hk = refl
parse_lines-enough zero (suc k) (c ∷ buf) w hn hk = ground arith
parse_lines-enough (suc n) zero [] w hn hk = refl
parse_lines-enough (suc n) zero (c ∷ buf) w hn hk = ground arith
parse_lines-enough (suc n) (suc k) buf w hn hk = elim (Option-cases (cut_crlf buf)) [
  | inl no_line ↦ rw (no_line, parse_lines)
  | inr (found, e) ↦
      let l = length-cut_crlf buf found.0 found.1 e in
      let hn' : length found.1 ≤ n = omega arith in
      let hk' : length found.1 ≤ k = omega arith in
      rw (e, parse_lines)
        (bind-cong (handle_line found.0 w) _ _ λ w'. parse_lines-enough n k found.1 w' hn' hk')
]

chunks :
    (n k : ℕ) (buf more : Bytes) (w : World)
    → length buf ≤ n
    → length (buf ++ more) ≤ k
    → parse_lines k (buf ++ more) w
      ≡ (parse_lines n buf w >>= λ left. parse_in_buffer (left.0 ++ more) left.1)
unfolding parse_lines parse_in_buffer cut_crlf
chunks zero k [] more w h hk = parse_lines-enough k (length more) more w hk (omega arith)
chunks zero k (c ∷ buf) more w h hk = ground arith
chunks (suc n) k [] more w h hk = parse_lines-enough k (length more) more w hk (omega arith)
chunks (suc n) zero (c ∷ buf) more w h hk = ground arith
chunks (suc n) (suc k) (c ∷ buf) more w h hk = elim (Option-cases (cut_crlf (c ∷ buf))) [
  | inl no_line ↦
      rw (no_line, parse_lines)
        (parse_lines-enough (suc k) (length (c ∷ buf ++ more)) (c ∷ buf ++ more) w hk (omega arith))
  | inr (found, e) ↦
      let l = length-cut_crlf (c ∷ buf) found.0 found.1 e in
      let h' : length found.1 ≤ n = omega arith in
      let hk' : length (found.1 ++ more) ≤ k =
        rw (length-append found.1 more) (let s = length-append buf more in omega arith) in
      rw (e, cut_crlf-append (c ∷ buf) more found.0 found.1 e, parse_lines)
        (bind-cong (handle_line found.0 w) _ _ (λ w'. chunks n k found.1 more w' h' hk')
          ∙ sym (bind_assoc (handle_line found.0 w) _ _))
]

-- However the stream is cut into the pieces that arrive, the same lines are handled, in the same
-- order: to read two pieces at once is to read the first, and then the second behind what the first
-- left in the buffer.
pub parse_in_buffer-append :
    (buf more : Bytes) (w : World)
    → parse_in_buffer (buf ++ more) w
      ≡ (parse_in_buffer buf w >>= λ left. parse_in_buffer (left.0 ++ more) left.1)
unfolding parse_in_buffer
parse_in_buffer-append buf more w =
    chunks (length buf) (length (buf ++ more)) buf more w (omega arith) (omega arith)
