-- ===== src/Network/Delivery.antt =====
-- What reaches the kernel of what was given to a socket (network/tcp_socket_handler.cpp).
use mathlib.Core.List.{append_assoc, append-nil}
use biboumi.Base.{
  ℕ, zero, suc, ◌-◌, ◌≤◌, List, [], ◌∷◌, ◌++◌, ◌≡◌, refl, ap, sym, ◌∙◌, arith, leb, inl, inr, Bytes,
  length, take, drop, Bool-cases, take-append-drop,
}
use biboumi.Network.{
  Socket, has_none, flatten, offered, remove_sent, stop_if_empty, raw_send, on_send,
}

drop-nil : (n : ℕ) → drop {A = ℕ} n [] ≡ []
drop-nil zero = refl
drop-nil (suc n) = refl

drop-append_ge :
    (n : ℕ) (xs ys : Bytes) → length xs ≤ n → drop n (xs ++ ys) ≡ drop (n - length xs) ys
drop-append_ge n [] ys h = ap (λ k. drop k ys) (omega arith)
drop-append_ge zero (x ∷ xs) ys h = absurd (omega arith)
drop-append_ge (suc n) (x ∷ xs) ys h =
    drop-append_ge n xs ys (omega arith) ∙ ap (λ k. drop k ys) (omega arith)

drop-append_le : (n : ℕ) (xs ys : Bytes) → n ≤ length xs → drop n (xs ++ ys) ≡ drop n xs ++ ys
drop-append_le zero xs ys h = refl
drop-append_le (suc n) [] ys h = absurd (omega arith)
drop-append_le (suc n) (x ∷ xs) ys h = drop-append_le n xs ys (omega arith)

take-append_le : (n : ℕ) (xs ys : Bytes) → n ≤ length xs → take n (xs ++ ys) ≡ take n xs
take-append_le zero xs ys h = refl
take-append_le (suc n) [] ys h = absurd (omega arith)
take-append_le (suc n) (x ∷ xs) ys h = ap (λ z. x ∷ z) (take-append_le n xs ys (omega arith))

-- The loop removes the bytes that were sent, and no other.
pub remove_sent-flatten :
    (n : ℕ) (ss : List Bytes) → flatten (remove_sent n ss) ≡ drop n (flatten ss)
unfolding remove_sent flatten
remove_sent-flatten n [] = sym (drop-nil n)
remove_sent-flatten n (s ∷ ss) = elim (Bool-cases (leb (length s) n)) [
  | inl e ↦
      rw e (
        remove_sent-flatten (n - length s) ss
        ∙ sym (drop-append_ge n s (flatten ss) (ground arith)))
  | inr e ↦ rw e (sym (drop-append_le n s (flatten ss) (ground arith)))
]

pub flatten-append : (xs ys : List Bytes) → flatten (xs ++ ys) ≡ flatten xs ++ flatten ys
unfolding flatten
flatten-append [] ys = refl
flatten-append (x ∷ xs) ys = simp (flatten-append xs ys, append_assoc)

flatten-take-drop :
    (k : ℕ) (ss : List Bytes) → flatten (take k ss) ++ flatten (drop k ss) ≡ flatten ss
flatten-take-drop k ss =
    sym (flatten-append (take k ss) (drop k ss)) ∙ ap flatten (take-append-drop k ss)

-- What is sent and what stays are what was there.
on_send-flatten :
    (n : ℕ) (ss : List Bytes)
    → n ≤ length (flatten (offered ss))
    → take n (flatten (offered ss)) ++ flatten (remove_sent n ss) ≡ flatten ss
unfolding offered
on_send-flatten n ss h =
    ap (λ z. take n (flatten (take 8 ss)) ++ z) (remove_sent-flatten n ss)
    ∙ ap (λ z. z ++ drop n (flatten ss))
        (sym (take-append_le n (flatten (take 8 ss)) (flatten (drop 8 ss)) h)
          ∙ ap (take n) (flatten-take-drop 8 ss))
    ∙ take-append-drop n (flatten ss)

pushed :
    (written : Bytes) (ss : List Bytes) (text : Bytes)
    → written ++ flatten (ss ++ text ∷ []) ≡ (written ++ flatten ss) ++ text
unfolding flatten
pushed written ss text = simp (flatten-append, append_assoc, append-nil)

-- The bytes that the kernel took, followed by those that wait.
pub stream : Socket → Bytes
stream s = s.written ++ flatten s.out_buf

-- An event of a socket that no error ends: something is sent, or `sendmsg` takes some bytes.
pub data Event : Type 0 where
  sends : Bytes → Event
  takes : ℕ → Event

module _ (on_connection_close on_connection_failed : Bytes → Socket → Socket)
    (parse_in_buffer : ℕ → Socket → Socket) where
  unfoldable pub step : Event → Socket → Socket
  step (sends text) s = raw_send text s
  step (takes n) s = on_send on_connection_close on_connection_failed parse_in_buffer (inr n) s

  pub run : List Event → Socket → Socket
  run [] s = s
  run (e ∷ es) s = run es (step e s)

  -- What a sequence of events sends.
  pub sent_by : List Event → Bytes
  sent_by [] = []
  sent_by (sends text ∷ es) = text ++ sent_by es
  sent_by (takes n ∷ es) = sent_by es

  -- `sendmsg` takes no more than it was given.
  unfoldable pub AreTaken : List Event → Socket → Type 0
  AreTaken [] s = Unit
  AreTaken (sends text ∷ es) s = AreTaken es (step (sends text) s)
  AreTaken (takes n ∷ es) s =
      (n ≤ length (flatten (offered s.out_buf))) × AreTaken es (step (takes n) s)

  raw_send-stream : (text : Bytes) (s : Socket) → stream (raw_send text s) ≡ stream s ++ text
  unfolding stream raw_send
  raw_send-stream [] s = sym (append-nil (s.written ++ flatten s.out_buf))
  raw_send-stream (c ∷ text) s = elim (Bool-cases s.connected) [
    | inl e ↦ rw e (pushed s.written s.out_buf (c ∷ text))
    | inr e ↦ rw e (pushed s.written s.out_buf (c ∷ text))
  ]

  on_send-stream :
      (n : ℕ) (s : Socket)
      → n ≤ length (flatten (offered s.out_buf))
      → stream (step (takes n) s) ≡ stream s
  unfolding stream step on_send stop_if_empty
  on_send-stream n s h =
      let eq =
        append_assoc s.written (take n (flatten (offered s.out_buf)))
          (flatten (remove_sent n s.out_buf))
        ∙ ap (λ z. s.written ++ z) (on_send-flatten n s.out_buf h) in
      elim (Bool-cases (has_none (remove_sent n s.out_buf))) [ inl e ↦ rw e eq | inr e ↦ rw e eq ]

  -- Whatever is given to a socket reaches the kernel in order and once, or waits in the out buffer:
  -- what the kernel took and what waits are at each moment what was given so far.
  pub run-sent_by :
      (es : List Event) (s : Socket) → AreTaken es s → stream (run es s) ≡ stream s ++ sent_by es
  unfolding run AreTaken sent_by step
  run-sent_by [] s h = sym (append-nil (stream s))
  run-sent_by (sends text ∷ es) s h =
      run-sent_by es (step (sends text) s) h
      ∙ ap (λ z. z ++ sent_by es) (raw_send-stream text s)
      ∙ append_assoc (stream s) text (sent_by es)
  run-sent_by (takes n ∷ es) s h =
      run-sent_by es (step (takes n) s) h.1 ∙ ap (λ z. z ++ sent_by es) (on_send-stream n s h.0)
