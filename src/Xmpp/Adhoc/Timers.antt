-- ===== src/Xmpp/Adhoc/Timers.antt =====
-- The events that remove the sessions of ad-hoc commands (xmpp/adhoc_commands_handler.cpp).
use mathlib.Core.Path.{subst}
use biboumi.Base.{
  ℕ, ◌+◌, Bool, true, false, ◌&&◌, ◌||◌, some, List, [], ◌∷◌, ◌≡◌, refl, sym, ◌∙◌, inl, inr, arith,
  Bytes, eq_bytes, length, lookup, insert, lookup-insert, lookup-erase, eq_bytes_iff, eq_bytes_refl,
  ◌++◌, eq_pair, eq_pair_iff, pair_eq, bytes_eq, Bool-cases,
}
use biboumi.Xmpp.Node.{XmlNode}
use biboumi.Config.{Config}
use biboumi.Xmpp.Adhoc.{
  AdhocSession, Handler, remove_session, emplace, open_session, close_session, handle_request,
}
use biboumi.Utils.TimedEvents.{TimedEvent, add_event, cancel, once}
use biboumi.Xmpp.Adhoc.{timer_name}
use biboumi.Xmpp.Adhoc.Changes.{After, handle_request-After}

pub removes : Bytes × Bytes → TimedEvent (Bytes × Bytes) → Bool
removes key event = eq_pair event.callback key && eq_bytes event.name (timer_name key)

-- Whether there is an event, under the name of the session, that removes it.
pub has_timer : Bytes × Bytes → List (TimedEvent (Bytes × Bytes)) → Bool
has_timer key [] = false
has_timer key (event ∷ events) = removes key event || has_timer key events

has_timer-add_event :
    (key : Bytes × Bytes) (event : TimedEvent (Bytes × Bytes))
    (events : List (TimedEvent (Bytes × Bytes)))
    → has_timer key (add_event event events) ≡ (removes key event || has_timer key events)
unfolding has_timer add_event
has_timer-add_event key event [] = refl
has_timer-add_event key event (it ∷ events) = ground (arith, has_timer-add_event key event events)

has_timer-cancel :
    (key : Bytes × Bytes) (name : Bytes) (events : List (TimedEvent (Bytes × Bytes)))
    → eq_bytes name (timer_name key) ≡ false
    → has_timer key (cancel name events).0 ≡ has_timer key events
unfolding has_timer cancel removes
has_timer-cancel key name [] ne = refl
has_timer-cancel key name (event ∷ events) ne = ground (
  arith,
  has_timer-cancel key name events ne,
  eq_bytes_iff event.name name,
  eq_bytes_iff event.name (timer_name key),
)

append-injective : (a b s t : Bytes) → length a ≡ length b → a ++ s ≡ b ++ t → (a ≡ b) × (s ≡ t)
append-injective [] [] s t l e = (refl, e)
append-injective [] (y ∷ b) s t l e = absurd (omega arith)
append-injective (x ∷ a) [] s t l e = absurd (omega arith)
append-injective (x ∷ a) (y ∷ b) s t l e = ground (arith, append-injective a b s t)

timer_name-injective :
    (k key : Bytes × Bytes) → length k.0 ≡ length key.0 → timer_name k ≡ timer_name key → k ≡ key
unfolding timer_name
timer_name-injective (a, s) (b, t) l e = ground (arith, append-injective a b s t l)

other_name :
    (k key : Bytes × Bytes)
    → length k.0 ≡ length key.0
    → eq_pair k key ≡ false
    → eq_bytes (timer_name k) (timer_name key) ≡ false
other_name k key l ne = ground (
  arith,
  eq_bytes_iff (timer_name k) (timer_name key),
  eq_pair_iff k key,
  timer_name-injective k key l,
)

own_timer :
    (key : Bytes × Bytes) (time_point : ℕ)
    → removes key (once time_point key (timer_name key)) ≡ true
unfolding removes once
own_timer key time_point = ground (arith, eq_bytes_refl (timer_name key), eq_pair_iff key key)

module _ {Step C : Type 0} where
  emplace-events :
      (k : Bytes × Bytes) (s : AdhocSession Step) (h : Handler Step C)
      → (emplace k s h).events ≡ h.events
  unfolding emplace
  emplace-events k s h = ground arith

  emplace-lookup :
      (k key : Bytes × Bytes) (s : AdhocSession Step) (h : Handler Step C)
      → eq_pair k key ≡ false
      → lookup key (emplace k s h).sessions ≡ lookup key h.sessions
  unfolding emplace
  emplace-lookup k key s h ne = ground (arith, lookup-insert k key s h.sessions)

module _ {Step C : Type 0} (n : ℕ) where
  -- Every session has an id of the same length, and a timer.
  unfoldable pub AreTimed : Handler Step C → Type 0
  AreTimed h =
      (key : Bytes × Bytes) (s : AdhocSession Step)
      → lookup key h.sessions ≡ some s
      → (length key.0 ≡ n) × (has_timer key h.events ≡ true)

  opens-AreTimed :
      (fresh jid : Bytes) (now : ℕ) (s : AdhocSession Step) (h : Handler Step C)
      → length fresh ≡ n
      → AreTimed h
      → AreTimed (open_session now (fresh, jid) s h)
  unfolding open_session AreTimed
  opens-AreTimed fresh jid now s h l p key t e =
      let k : Bytes × Bytes = (fresh, jid) in
      let time_point = now + 3600000000000 in
      let added =
        has_timer-add_event key (once time_point k (timer_name k)) (emplace k s h).events in
      elim (Bool-cases (eq_pair k key)) [
        | inl b ↦ ground (arith, added, own_timer k time_point, eq_pair_iff k key)
        | inr b ↦
            let old = p key t (sym (emplace-lookup k key s h b) ∙ e) in
            ground (arith, added, old, emplace-events k s h)
      ]

  closes-AreTimed :
      (k : Bytes × Bytes) (s : AdhocSession Step) (h : Handler Step C)
      → lookup k h.sessions ≡ some s
      → AreTimed h
      → AreTimed (close_session k h)
  unfolding close_session remove_session AreTimed
  closes-AreTimed k s h found p key t e = elim (Bool-cases (eq_pair k key)) [
    | inl b ↦ ground (arith, lookup-erase k key h.sessions)
    | inr b ↦
        let old = p key t (ground (arith, lookup-erase k key h.sessions)) in
        let l = (p k s found).0 ∙ sym old.0 in
        (old.0, has_timer-cancel key (timer_name k) h.events (other_name k key l b) ∙ old.1)
  ]

  stores-AreTimed :
      (k : Bytes × Bytes) (s u : AdhocSession Step) (h : Handler Step C)
      → lookup k h.sessions ≡ some s
      → AreTimed h
      → AreTimed (record h { sessions = insert k u h.sessions })
  unfolding AreTimed
  stores-AreTimed k s u h found p key t e = elim (Bool-cases (eq_pair k key)) [
    | inl b ↦
        subst (λ z. (length z.0 ≡ n) × (has_timer z h.events ≡ true)) ((eq_pair_iff k key).0 b)
          (p k s found)
    | inr b ↦ p key t (ground (arith, lookup-insert k key u h.sessions))
  ]

  -- After a request each session still has an event that removes it: the request adds one for
  -- each new session, and cancels only the one of the session that ends. The ids must have one
  -- length, as those of `next_id` have.
  pub handle_request-AreTimed :
      (execute : Step → C → AdhocSession Step → XmlNode → C × AdhocSession Step × XmlNode)
      {Callback : Type 0} (config : Config Callback) (now : ℕ) (fresh jid to : Bytes)
      (command_node : XmlNode) (h : Handler Step C)
      → length fresh ≡ n
      → AreTimed h
      → After AreTimed (handle_request execute config now fresh jid to command_node h)
  unfolding AreTimed
  handle_request-AreTimed execute config now fresh jid to command_node h l p =
      handle_request-After AreTimed fresh jid
        (record {
          opens = λ now s h q. opens-AreTimed fresh jid now s h l q;
          closes = λ id s h e q. closes-AreTimed (id, jid) s h e q;
          stores = λ id s u h e q. stores-AreTimed (id, jid) s u h e q;
          goes_on = λ c h q. q;
        })
        execute config now to command_node h p
