-- ===== src/Utils/TimedEvents/Order.antt =====
-- The order of the timed events.
use biboumi.Base.{
  ℕ, ◌+◌, ◌-◌, ◌≤◌, ◌<◌, ◌≡◌, refl, true, List, [], ◌∷◌, arith, All, Bool-cases, inl, inr, Bytes,
  eq_bytes, length,
}
use biboumi.Utils.TimedEvents.{TimedEvent, is_after, add_event, cancel, postponed}

module _ {ℓ} {C : Type ℓ} where
  abbrev pub IsBefore : TimedEvent C → TimedEvent C → Type 0
  IsBefore e f = e.time_point ≤ f.time_point

  abbrev pub IsSorted : List (TimedEvent C) → Type 0
  IsSorted [] = Unit
  IsSorted (e ∷ es) = All (IsBefore e) es × IsSorted es

  pub add_event-All {κ} :
      (P : TimedEvent C → Type κ) (e : TimedEvent C) (es : List (TimedEvent C))
      → P e
      → All P es
      → All P (add_event e es)
  unfolding add_event
  add_event-All P e [] pe h = (pe, tt)
  add_event-All P e (it ∷ es) pe h = elim (Bool-cases (is_after it e.time_point)) [
    | inl after ↦ rw after (pe, h)
    | inr before ↦ rw before (h.0, add_event-All P e es pe h.1)
  ]

  IsBefore-trans :
      (e f : TimedEvent C) (es : List (TimedEvent C))
      → IsBefore e f
      → All (IsBefore f) es
      → All (IsBefore e) es
  IsBefore-trans e f [] h a = tt
  IsBefore-trans e f (g ∷ es) h a = (omega arith, IsBefore-trans e f es h a.1)

  -- Adding an event to a sorted list leaves it sorted.
  pub add_event-IsSorted :
      (e : TimedEvent C) (es : List (TimedEvent C)) → IsSorted es → IsSorted (add_event e es)
  unfolding add_event
  add_event-IsSorted e [] h = (tt, tt)
  add_event-IsSorted e (it ∷ es) h = elim (Bool-cases (is_after it e.time_point)) [
    | inl after ↦
        let le : e.time_point ≤ it.time_point = ground arith in
        rw after ((le, IsBefore-trans e it es le h.0), h)
    | inr before ↦
        let le : it.time_point ≤ e.time_point = ground arith in
        rw before (add_event-All (IsBefore it) e es le h.0, add_event-IsSorted e es h.1)
  ]

  -- How long the event has been due, and one more; 0 for an event that is not due.
  abbrev pub overdue : ℕ → TimedEvent C → ℕ
  overdue now e = now + 1 - e.time_point

  abbrev pub total_overdue : ℕ → List (TimedEvent C) → ℕ
  total_overdue now [] = 0
  total_overdue now (e ∷ es) = overdue now e + total_overdue now es

  pub total_overdue-add_event :
      (now : ℕ) (e : TimedEvent C) (es : List (TimedEvent C))
      → total_overdue now (add_event e es) ≡ overdue now e + total_overdue now es
  unfolding add_event
  total_overdue-add_event now e [] = refl
  total_overdue-add_event now e (it ∷ es) = elim (Bool-cases (is_after it e.time_point)) [
    | inl after ↦ rw after refl
    | inr before ↦ rw before (omega (arith, total_overdue-add_event now e es))
  ]

  -- A repeated event moves on when it is armed again.
  abbrev pub Advances : TimedEvent C → Type 0
  Advances e = e.repeat ≡ true → 0 < e.repeat_delay

  pub time_point-postponed :
      (e : TimedEvent C) → (postponed e).time_point ≡ e.time_point + e.repeat_delay
  unfolding postponed
  time_point-postponed e = refl

  abbrev pub IsPending : ℕ → TimedEvent C → Type 0
  IsPending now e = now < e.time_point

  pub IsPending-sorted :
      (now : ℕ) (e : TimedEvent C) (es : List (TimedEvent C))
      → now < e.time_point
      → All (IsBefore e) es
      → All (IsPending now) es
  IsPending-sorted now e [] h a = tt
  IsPending-sorted now e (f ∷ es) h a = (omega arith, IsPending-sorted now e es h a.1)

  pub cancel-All {κ} :
      (P : TimedEvent C → Type κ) (name : Bytes) (es : List (TimedEvent C))
      → All P es
      → All P (cancel name es).0
  unfolding cancel
  cancel-All P name [] h = tt
  cancel-All P name (e ∷ es) h = elim (Bool-cases (eq_bytes e.name name)) [
    | inl gone ↦ rw gone (cancel-All P name es h.1)
    | inr kept ↦ rw kept (h.0, cancel-All P name es h.1)
  ]

  pub cancel-IsSorted :
      (name : Bytes) (es : List (TimedEvent C)) → IsSorted es → IsSorted (cancel name es).0
  unfolding cancel
  cancel-IsSorted name [] h = tt
  cancel-IsSorted name (e ∷ es) h = elim (Bool-cases (eq_bytes e.name name)) [
    | inl gone ↦ rw gone (cancel-IsSorted name es h.1)
    | inr kept ↦ rw kept (cancel-All (IsBefore e) name es h.0, cancel-IsSorted name es h.1)
  ]

  pub total_overdue-cancel :
      (now : ℕ) (name : Bytes) (es : List (TimedEvent C))
      → total_overdue now (cancel name es).0 ≤ total_overdue now es
  unfolding cancel
  total_overdue-cancel now name [] = omega arith
  total_overdue-cancel now name (e ∷ es) = elim (Bool-cases (eq_bytes e.name name)) [
    | inl gone ↦ rw gone (omega (arith, total_overdue-cancel now name es))
    | inr kept ↦ rw kept (omega (arith, total_overdue-cancel now name es))
  ]

  pub length-cancel :
      (name : Bytes) (es : List (TimedEvent C)) → length (cancel name es).0 ≤ length es
  unfolding cancel
  length-cancel name [] = omega arith
  length-cancel name (e ∷ es) = elim (Bool-cases (eq_bytes e.name name)) [
    | inl gone ↦ rw gone (omega (arith, length-cancel name es))
    | inr kept ↦ rw kept (omega (arith, length-cancel name es))
  ]

  pub length-add_event :
      (e : TimedEvent C) (es : List (TimedEvent C)) → length (add_event e es) ≡ length es + 1
  unfolding add_event
  length-add_event e [] = refl
  length-add_event e (it ∷ es) = elim (Bool-cases (is_after it e.time_point)) [
    | inl after ↦ rw after (omega arith)
    | inr before ↦ rw before (omega (arith, length-add_event e es))
  ]
