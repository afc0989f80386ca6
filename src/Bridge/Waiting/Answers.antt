-- ===== src/Bridge/Waiting/Answers.antt =====
-- What a run of `trigger_on_irc_message` (bridge/bridge.cpp) sends for the closures that wait.
use mathlib.Core.List.{append_assoc, append-nil}
use mathlib.Core.Path.{subst}
use biboumi.Base.{
  true, false, List, [], ◌∷◌, ◌++◌, ◌≡◌, sym, ◌∙◌, ap, ◌⊎◌, arith, inl, inr, if◌then◌else◌, Bytes,
}
use biboumi.Irc.Message.{IrcMessage}
use biboumi.World.{Outcome, ok, thrown, fault, ◌>>=◌, XmppCall}
use biboumi.Bridge.Waiting.{Waiting, Responder, Answer, respond, trigger, trigger_on_irc_message}
use biboumi.Bridge.Waiting.Trigger.{calls, IsAnswerTo, IsOneAnswer, respond-IsOneAnswer}

-- `Answers before after sent`: closures were taken off the list, in some order, and each of the
-- calls is the answer to the request of another one of them.
pub data Answers : List Responder → List Responder → List XmppCall → Type 0 where
  stay : (rs : List Responder) → Answers rs rs []
  goes :
      (rs : List Responder) (r : Responder) (rs' after : List Responder) (sent : List XmppCall)
      → Answers (rs ++ rs') after sent
      → Answers (rs ++ r ∷ rs') after sent
  answers :
      (rs : List Responder) (r : Responder) (rs' after : List Responder) (call : XmppCall)
      (sent : List XmppCall)
      → IsAnswerTo r call
      → Answers (rs ++ rs') after sent
      → Answers (rs ++ r ∷ rs') after (call ∷ sent)

Answers-trans :
    (xs ys zs : List Responder) (c d : List XmppCall)
    → Answers xs ys c
    → Answers ys zs d
    → Answers xs zs (c ++ d)
Answers-trans xs ys zs c d (stay rs) q = q
Answers-trans xs ys zs c d (goes rs r rs' after sent p) q =
    goes rs r rs' zs (sent ++ d) (Answers-trans (rs ++ rs') ys zs sent d p q)
Answers-trans xs ys zs c d (answers rs r rs' after call sent h p) q =
    answers rs r rs' zs call (sent ++ d) h (Answers-trans (rs ++ rs') ys zs sent d p q)

-- From `s` with some closures to `s'` with others.
pub HasAnswered : List Responder → Waiting → List Responder → Waiting → Type 0
HasAnswered before s after s' =
    (sent : List XmppCall) × (calls s' ≡ calls s ++ sent) × Answers before after sent

module _ (front : List Responder) where
  -- The part of the list behind `front`.
  TriggerAnswers : List Responder → Waiting → Outcome (List Responder × Waiting) → Type 0
  TriggerAnswers before s (ok (after, s')) = HasAnswered (front ++ before) s (front ++ after) s'
  TriggerAnswers before s (thrown w) = Unit
  TriggerAnswers before s (fault e) = Unit

after_goes :
    (front : List Responder) (r : Responder) (rs : List Responder) (s s1 : Waiting)
    (t : Outcome (List Responder × Waiting))
    → (calls s1 ≡ calls s)
      ⊎ ((call : XmppCall) × (calls s1 ≡ calls s ++ call ∷ []) × IsAnswerTo r call)
    → TriggerAnswers front rs s1 t
    → TriggerAnswers front (r ∷ rs) s (t >>= λ (rest, s''). ok (rest, s''))
unfolding TriggerAnswers HasAnswered
after_goes front r rs s s1 (ok (rest, s2)) (inl e) (sent, f, p) =
    (sent, f ∙ ap (λ z. z ++ sent) e, goes front r rs (front ++ rest) sent p)
after_goes front r rs s s1 (ok (rest, s2)) (inr (call, e, h)) (sent, f, p) = (
  call ∷ sent,
  f ∙ ap (λ z. z ++ sent) e ∙ append_assoc (calls s) (call ∷ []) sent,
  answers front r rs (front ++ rest) call sent h p,
)
after_goes front r rs s s1 (thrown w) h k = tt
after_goes front r rs s s1 (fault e) h k = tt

after_stays :
    (front : List Responder) (r : Responder) (rs : List Responder) (s s1 : Waiting)
    (t : Outcome (List Responder × Waiting))
    → calls s1 ≡ calls s
    → TriggerAnswers (front ++ r ∷ []) rs s1 t
    → TriggerAnswers front (r ∷ rs) s (t >>= λ (rest, s''). ok (r ∷ rest, s''))
unfolding TriggerAnswers HasAnswered
after_stays front r rs s s1 (ok (rest, s2)) e (sent, f, p) = (
  sent,
  f ∙ ap (λ z. z ++ sent) e,
  subst (λ z. Answers z (front ++ r ∷ rest) sent) (append_assoc front (r ∷ []) rs)
      (subst (λ z. Answers ((front ++ r ∷ []) ++ rs) z sent) (append_assoc front (r ∷ []) rest) p),
)
after_stays front r rs s s1 (thrown w) h k = tt
after_stays front r rs s s1 (fault e) h k = tt

step-TriggerAnswers :
    (front : List Responder) (r : Responder) (rs : List Responder) (h : Bytes) (m : IrcMessage)
    (s : Waiting) (a : Answer)
    → IsOneAnswer r s a
    → ((f : List Responder) (s1 : Waiting) → TriggerAnswers f rs s1 (trigger rs h m s1))
    → TriggerAnswers front (r ∷ rs) s (
        a >>= λ (s', is_done).
        trigger rs h m s' >>= λ (rest, s''). ok (if is_done then rest else r ∷ rest, s''))
unfolding IsOneAnswer TriggerAnswers
step-TriggerAnswers front r rs h m s (ok (s1, true)) (inl e) k =
    after_goes front r rs s s1 (trigger rs h m s1) (inl e) (k front s1)
step-TriggerAnswers front r rs h m s (ok (s1, true)) (inr (call, e, d, g)) k =
    after_goes front r rs s s1 (trigger rs h m s1) (inr (call, e, g)) (k front s1)
step-TriggerAnswers front r rs h m s (ok (s1, false)) (inl e) k =
    after_stays front r rs s s1 (trigger rs h m s1) e (k (front ++ r ∷ []) s1)
step-TriggerAnswers front r rs h m s (ok (s1, false)) (inr (call, e, d, g)) k = ground arith
step-TriggerAnswers front r rs h m s (thrown w) g k = tt
step-TriggerAnswers front r rs h m s (fault e) g k = tt

trigger-TriggerAnswers :
    (rs : List Responder) (h : Bytes) (m : IrcMessage) (front : List Responder) (s : Waiting)
    → TriggerAnswers front rs s (trigger rs h m s)
unfolding trigger TriggerAnswers HasAnswered
trigger-TriggerAnswers [] h m front s = ([], sym (append-nil (calls s)), stay (front ++ []))
trigger-TriggerAnswers (r ∷ rs) h m front s =
    step-TriggerAnswers front r rs h m s (respond r h m s) (respond-IsOneAnswer r h m s)
      (λ f s1. trigger-TriggerAnswers rs h m f s1)

-- The messages of the servers, one behind the other.
pub run_messages : List (Bytes × IrcMessage) → Waiting → Outcome Waiting
run_messages [] s = ok s
run_messages ((irc_hostname, m) ∷ ms) s =
    trigger_on_irc_message irc_hostname m s >>= λ s'. run_messages ms s'

pub Answered : Waiting → Outcome Waiting → Type 0
Answered s (ok s') = HasAnswered s.waiting_irc s s'.waiting_irc s'
Answered s (thrown w) = Unit
Answered s (fault e) = Unit

kept-Answered :
    (s : Waiting) (t : Outcome (List Responder × Waiting))
    → TriggerAnswers [] s.waiting_irc s t
    → Answered s (t >>= λ (rest, s'). ok (record s' { waiting_irc = rest }))
unfolding TriggerAnswers HasAnswered Answered
kept-Answered s (ok (rest, s')) h = h
kept-Answered s (thrown w) h = tt
kept-Answered s (fault e) h = tt

trigger_on_irc_message-Answered :
    (h : Bytes) (m : IrcMessage) (s : Waiting) → Answered s (trigger_on_irc_message h m s)
unfolding trigger_on_irc_message
trigger_on_irc_message-Answered h m s =
    kept-Answered s (trigger s.waiting_irc h m s) (trigger-TriggerAnswers s.waiting_irc h m [] s)

chained :
    (s s1 : Waiting) (o : Outcome Waiting)
    → HasAnswered s.waiting_irc s s1.waiting_irc s1
    → Answered s1 o
    → Answered s o
unfolding Answered HasAnswered
chained s s1 (ok s2) (c, e, p) (d, f, q) = (
  c ++ d,
  f ∙ ap (λ z. z ++ d) e ∙ append_assoc (calls s) c d,
  Answers-trans s.waiting_irc s1.waiting_irc s2.waiting_irc c d p q,
)
chained s s1 (thrown w) h k = tt
chained s s1 (fault e) h k = tt

then-Answered :
    (s : Waiting) (a : Outcome Waiting) (f : Waiting → Outcome Waiting)
    → Answered s a
    → ((s' : Waiting) → Answered s' (f s'))
    → Answered s (a >>= f)
unfolding Answered
then-Answered s (ok s1) f h k = chained s s1 (f s1) h (k s1)
then-Answered s (thrown w) f h k = tt
then-Answered s (fault e) f h k = tt

-- Whatever messages the servers send, each request that waits is answered at most once: each stanza
-- that is sent has the id and the sender of a request whose closure is then taken off the list,
-- and no two are for the same closure, unless a handler runs into undefined behaviour.
pub run_messages-Answered :
    (ms : List (Bytes × IrcMessage)) (s : Waiting) → Answered s (run_messages ms s)
unfolding run_messages Answered HasAnswered
run_messages-Answered [] s = ([], sym (append-nil (calls s)), stay s.waiting_irc)
run_messages-Answered ((h, m) ∷ ms) s =
    then-Answered s (trigger_on_irc_message h m s) (λ s'. run_messages ms s')
      (trigger_on_irc_message-Answered h m s) (λ s'. run_messages-Answered ms s')
