-- ===== src/Client/Send/Queue.antt =====
-- The order in which messages reach the server: `send_message` and the timer of the bucket.
use biboumi.Base.{
  ℕ, zero, suc, ◌≡◌, ◌⊎◌, refl, sym, ap, ◌∙◌, arith, true, false, List, [], ◌∷◌, ◌++◌, Bytes,
  Bool-cases, inl, inr,
}
use mathlib.Core.List.{append_assoc, append-nil}
use biboumi.Irc.Message.{IrcMessage, serialize}
use biboumi.Utils.TokensBucket.{
  TokensBucket, Limit, negative, at_most, use_token, add_token, refill, set_limit,
}
use biboumi.Client.Frame.{client-run_callback}
use biboumi.Client.Send.{
  send_data, actual_send, enqueue, send_irc_message, send_first, send_delayed, on_bucket_timer,
  set_throttle_limit, set_bucket,
}
use biboumi.World.{IrcClient, MessageCallback, World}

abbrev pub texts : List (IrcMessage × MessageCallback) → List Bytes
texts [] = []
texts ((m, _) ∷ queue) = serialize m ∷ texts queue

-- What was sent, and behind it what waits to be sent.
abbrev pub pending : World → List Bytes
pending w = w.client.sent ++ texts w.client.message_queue

abbrev pub OrderlyAt : Limit → ℕ → List (IrcMessage × MessageCallback) → Type 0
OrderlyAt negative tokens queue = queue ≡ []
OrderlyAt (at_most n) tokens queue = (queue ≡ []) ⊎ (tokens ≡ 0)

-- Messages wait only while there is a limit and no token.
abbrev pub Orderly : World → Type 0
Orderly w =
    OrderlyAt w.client.tokens_bucket.limit w.client.tokens_bucket.tokens w.client.message_queue

texts-append :
    (queue : List (IrcMessage × MessageCallback)) (m : IrcMessage) (cb : MessageCallback)
    → texts (queue ++ (m, cb) ∷ []) ≡ texts queue ++ serialize m ∷ []
texts-append [] m cb = refl
texts-append ((n, _) ∷ queue) m cb = rw (texts-append queue m cb)

OrderlyAt-nil : (l : Limit) (t : ℕ) → OrderlyAt l t []
OrderlyAt-nil negative t = refl
OrderlyAt-nil (at_most n) t = inl refl

-- A token is given only where no message waits.
token-queue :
    (l : Limit) (t : ℕ) (queue : List (IrcMessage × MessageCallback))
    → OrderlyAt l t queue
    → (use_token (record { limit = l; tokens = t })).1 ≡ true
    → queue ≡ []
unfolding use_token
token-queue negative t queue h e = h
token-queue (at_most n) t queue (inl h) e = h
token-queue (at_most n) t queue (inr h) e = ground arith

-- Without a token, any message may wait.
no_token-OrderlyAt :
    (l : Limit) (t : ℕ) (queue : List (IrcMessage × MessageCallback))
    → (use_token (record { limit = l; tokens = t })).1 ≡ false
    → let b = (use_token (record { limit = l; tokens = t })).0 in OrderlyAt b.limit b.tokens queue
unfolding use_token
no_token-OrderlyAt negative t queue e = ground arith
no_token-OrderlyAt (at_most n) zero queue e = inr refl
no_token-OrderlyAt (at_most n) (suc t) queue e = ground arith

sent_now :
    (m : IrcMessage) (cb : MessageCallback) (b : TokensBucket) (w : World)
    → w.client.message_queue ≡ []
    → let w' = actual_send m cb (set_bucket b w) in
      (pending w' ≡ pending w ++ serialize m ∷ []) × Orderly w'
unfolding actual_send send_data
sent_now m cb b w none_waits =
    rw (client-run_callback cb m (send_data (serialize m) (set_bucket b w)), send_data)
      (simp none_waits (simp append-nil), simp none_waits (OrderlyAt-nil b.limit b.tokens))

-- A message that waits for its turn goes behind every message before it, whether it is sent at once
-- or has to wait; and messages still wait only where there is no token.
pub send_irc_message-pending :
    (m : IrcMessage) (cb : MessageCallback) (w : World)
    → Orderly w
    → let w' = send_irc_message m cb true w in
      (pending w' ≡ pending w ++ serialize m ∷ []) × Orderly w'
unfolding send_irc_message enqueue
send_irc_message-pending m cb w h =
    let b = w.client.tokens_bucket in
    elim (Bool-cases (use_token b).1) [
      | inl token ↦
          rw (token, send_irc_message)
            (sent_now m cb (use_token b).0 w
              (token-queue b.limit b.tokens w.client.message_queue h token))
      | inr no_token ↦
          rw (no_token, send_irc_message)
            (
              rw (texts-append w.client.message_queue m cb) (
                  sym
                    (append_assoc w.client.sent (texts w.client.message_queue) (serialize m ∷ []))),
              no_token-OrderlyAt b.limit b.tokens _ no_token,
            )
    ]

client-actual_send :
    (m : IrcMessage) (cb : MessageCallback) (w : World)
    → (actual_send m cb w).client ≡ record w.client { sent = w.client.sent ++ serialize m ∷ [] }
unfolding actual_send send_data
client-actual_send m cb w = client-run_callback cb m (send_data (serialize m) w)

send_first-pending :
    (queue : List (IrcMessage × MessageCallback)) (w : World)
    → w.client.message_queue ≡ queue
    → pending (send_first queue w).0 ≡ pending w
unfolding send_first
send_first-pending [] w e = refl
send_first-pending ((m, cb) ∷ queue) w e =
    ap (λ (c : IrcClient). c.sent ++ texts queue) (client-actual_send m cb w)
    ∙ append_assoc w.client.sent (serialize m ∷ []) (texts queue)
    ∙ ap (λ q. w.client.sent ++ texts q) (sym e)

-- The timer allows a token only where no message waits.
refill-OrderlyAt :
    (n t : ℕ) (queue : List (IrcMessage × MessageCallback)) (w : World)
    → w.client.message_queue ≡ queue
    → OrderlyAt (at_most n) t queue
    → let (w', allowed) = send_first queue w in
      let b = refill allowed n (record { limit = at_most n; tokens = t }) in
      OrderlyAt b.limit b.tokens w'.client.message_queue
unfolding send_first refill
refill-OrderlyAt n t [] w e h = rw e (OrderlyAt-nil _ _)
refill-OrderlyAt n t ((m, cb) ∷ queue) w e (inl h) = ground arith
refill-OrderlyAt n t ((m, cb) ∷ queue) w e (inr h) = inr h

timer-pending :
    (l : Limit) (t : ℕ) (w : World)
    → OrderlyAt l t w.client.message_queue
    → let (b, w') = add_token send_delayed (record { limit = l; tokens = t }) w in
      (pending w' ≡ pending w) × OrderlyAt b.limit b.tokens w'.client.message_queue
unfolding add_token send_delayed
timer-pending negative t w h = (refl, h)
timer-pending (at_most n) t w h = (
  send_first-pending w.client.message_queue w refl,
  refill-OrderlyAt n t w.client.message_queue w refl h,
)

-- The timer sends messages in the order in which they wait, and loses none of them; and messages
-- still wait only where there is no token.
pub on_bucket_timer-pending :
    (w : World)
    → Orderly w
    → (pending (on_bucket_timer w) ≡ pending w) × Orderly (on_bucket_timer w)
unfolding on_bucket_timer
on_bucket_timer-pending w h =
    timer-pending w.client.tokens_bucket.limit w.client.tokens_bucket.tokens w h

-- When the limit becomes negative, what waits is never sent: the timer does nothing any more, and
-- new messages are sent at once, before those that wait.
pub set_throttle_limit-negative :
    (m : IrcMessage) (cb : MessageCallback) (w : World)
    → let w' = set_throttle_limit negative w in
      let w'' = send_irc_message m cb true w' in
      (on_bucket_timer w' ≡ w')
      × (w''.client.sent ≡ w.client.sent ++ serialize m ∷ [])
      × (w''.client.message_queue ≡ w.client.message_queue)
unfolding set_throttle_limit set_limit on_bucket_timer add_token send_irc_message use_token
set_throttle_limit-negative m cb w =
    let e = client-actual_send m cb _ in
    (refl, ap (λ (c : IrcClient). c.sent) e, ap (λ (c : IrcClient). c.message_queue) e)
