-- ===== src/Network/Progress.antt =====
-- How the out buffer of a socket empties (network/tcp_socket_handler.cpp).
use biboumi.Base.{
  ℕ, zero, suc, ◌-◌, ◌≤◌, ◌<◌, ◌≢◌, true, false, List, [], ◌∷◌, ◌≡◌, refl, ap, ◌∙◌, arith, leb, ◌⊎◌,
  inl, inr, Bytes, is_empty, length, take, drop, All, All-append, Bool-cases, length-drop,
  length-append, ◌==◌,
}
use biboumi.Network.{
  Socket, has_none, flatten, offered, remove_sent, stop_if_empty, raw_send, on_send, close,
}
use biboumi.Network.Delivery.{remove_sent-flatten}

unfoldable pub IsSome : Bytes → Type 0
IsSome s = is_empty s ≡ false

-- What waits has some bytes, and the poller waits for the socket whenever there is something.
pub record IsWatched (s : Socket) : Type 0 where
  pub texts : All IsSome s.out_buf
  pub watching : s.connected ≡ true → has_none s.out_buf ≡ false → s.watched ≡ true

rest-IsSome : (n : ℕ) (s : Bytes) → n < length s → IsSome (drop n s)
unfolding IsSome
rest-IsSome zero [] h = absurd (omega arith)
rest-IsSome zero (c ∷ s) h = refl
rest-IsSome (suc n) [] h = absurd (omega arith)
rest-IsSome (suc n) (c ∷ s) h = rest-IsSome n s (omega arith)

IsSome-length : (s : Bytes) → IsSome s → 0 < length s
unfolding IsSome
IsSome-length [] h = ground arith
IsSome-length (c ∷ s) h = omega arith

remove_sent-IsSome : (n : ℕ) (ss : List Bytes) → All IsSome ss → All IsSome (remove_sent n ss)
unfolding remove_sent IsSome
remove_sent-IsSome n [] h = tt
remove_sent-IsSome n (s ∷ ss) h = elim (Bool-cases (leb (length s) n)) [
  | inl e ↦ rw e (remove_sent-IsSome (n - length s) ss h.1)
  | inr e ↦ rw e (rest-IsSome n s (ground arith), h.1)
]

remove_sent-has_none :
    (n : ℕ) (ss : List Bytes) → has_none (remove_sent n ss) ≡ false → has_none ss ≡ false
unfolding remove_sent
remove_sent-has_none n [] h = h
remove_sent-has_none n (s ∷ ss) h = refl

none_left : (ss : List Bytes) → All IsSome ss → length (flatten ss) ≤ 0 → has_none ss ≡ true
unfolding flatten
none_left [] h k = refl
none_left (s ∷ ss) h k =
    let a = IsSome-length s h.0 in let b = length-append s (flatten ss) in absurd (omega arith)

-- Something is offered to the kernel if something waits.
offered-length :
    (ss : List Bytes) → All IsSome ss → length (flatten ss) ≢ 0 → length (flatten (offered ss)) ≢ 0
unfolding flatten offered
offered-length [] h k = k
offered-length (s ∷ ss) h k =
    let a = IsSome-length s h.0 in let b = length-append s (flatten (take 7 ss)) in ground arith

remove_sent-length :
    (n : ℕ) (ss : List Bytes) → length (flatten (remove_sent n ss)) ≡ length (flatten ss) - n
remove_sent-length n ss = ap length (remove_sent-flatten n ss) ∙ length-drop n (flatten ss)

raw_send-IsWatched : (text : Bytes) (s : Socket) → IsWatched s → IsWatched (raw_send text s)
unfolding raw_send IsSome
raw_send-IsWatched [] s w = w
raw_send-IsWatched (c ∷ text) s w =
    let texts = All-append IsSome s.out_buf ((c ∷ text) ∷ []) w.texts (refl, tt) in
    elim (Bool-cases s.connected) [
      | inl e ↦ rw e (record { texts = texts; watching = λ a b. refl })
      | inr e ↦ rw e (record { texts = texts; watching = λ a b. ground arith })
    ]

shorter :
    (m : ℕ) (ss : List Bytes) (n : ℕ)
    → (length (flatten (offered ss)) ≢ 0 → 0 < m)
    → All IsSome ss
    → length (flatten ss) ≤ suc n
    → {k : ℕ} → k ≡ length (flatten ss) - m
    → k ≤ n
shorter m ss n t w h e = elim (Bool-cases (length (flatten ss) == 0)) [
  | inl b ↦ ground arith
  | inr b ↦ let p = t (offered-length ss w (ground arith)) in omega arith
]

-- `sendmsg` takes at least one byte, if it is given one, and no more than it is given.
unfoldable pub TakesSome : (List Bytes → ℕ) → Type 0
TakesSome sendmsg =
    (ss : List Bytes)
    → (length (flatten ss) ≢ 0 → 0 < sendmsg ss) × (sendmsg ss ≤ length (flatten ss))

module _ (on_connection_close on_connection_failed : Bytes → Socket → Socket)
    (parse_in_buffer : ℕ → Socket → Socket) where
  send : Bytes ⊎ ℕ → Socket → Socket
  send r s = on_send on_connection_close on_connection_failed parse_in_buffer r s

  -- A socket that sends stays watched until its buffer is empty; after an error it has no
  -- buffer left.
  on_send-IsWatched : (r : Bytes ⊎ ℕ) (s : Socket) → IsWatched s → IsWatched (send r s)
  unfolding on_send stop_if_empty close send
  on_send-IsWatched (inl error) s w = record { texts = tt; watching = λ a b. ground arith }
  on_send-IsWatched (inr n) s w =
      let texts = remove_sent-IsSome n s.out_buf w.texts in
      elim (Bool-cases (has_none (remove_sent n s.out_buf))) [
        | inl e ↦ rw e (record { texts = texts; watching = λ a b. ground arith })
        | inr e ↦ rw e (record {
          texts = texts;
          watching = λ a b. w.watching a (remove_sent-has_none n s.out_buf e);
        })
      ]

  send-out_buf : (n : ℕ) (s : Socket) → (send (inr n) s).out_buf ≡ remove_sent n s.out_buf
  unfolding on_send stop_if_empty send
  send-out_buf n s = ground arith

  pub send_all : ℕ → (List Bytes → ℕ) → Socket → Socket
  send_all zero sendmsg s = s
  send_all (suc n) sendmsg s = send_all n sendmsg (send (inr (sendmsg (offered s.out_buf))) s)

  -- The buffer of a socket is empty after as many send events as it had bytes, whatever part of the
  -- data each takes.
  pub send_all-has_none :
      (sendmsg : List Bytes → ℕ) (n : ℕ) (s : Socket)
      → TakesSome sendmsg
      → IsWatched s
      → length (flatten s.out_buf) ≤ n
      → has_none (send_all n sendmsg s).out_buf ≡ true
  unfolding send_all TakesSome
  send_all-has_none sendmsg zero s t w h = none_left s.out_buf w.texts h
  send_all-has_none sendmsg (suc n) s t w h =
      let m = sendmsg (offered s.out_buf) in
      send_all-has_none sendmsg n (send (inr m) s) t (on_send-IsWatched (inr m) s w) (
        shorter m s.out_buf n (t (offered s.out_buf)).0 w.texts h
          (ap (λ z. length (flatten z)) (send-out_buf m s) ∙ remove_sent-length m s.out_buf))
