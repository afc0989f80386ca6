-- ===== src/Utils/TimedEvents/Expiry.antt =====
-- `execute_expired_events` (utils/timed_events_manager.cpp) with callbacks that use the manager.
use biboumi.Base.{
  ℕ, zero, suc, ◌+◌, ◌≤◌, ◌<◌, ◌≡◌, refl, Bool, true, false, some, List, [], ◌∷◌, ◌++◌, arith, All,
  All-append, Bool-cases, inl, inr, length, leb, if◌then◌else◌,
}
use biboumi.Utils.TimedEvents.{
  TimedEvent, is_after, add_event, cancel, postponed, ManagerCall, adds, cancels, apply_calls,
  rearm, Run, ended, execute_loop, execute_expired_events,
}
use biboumi.Utils.TimedEvents.Order.{
  IsSorted, IsPending, IsPending-sorted, Advances, overdue, total_overdue, add_event-All,
  add_event-IsSorted, cancel-All, cancel-IsSorted, total_overdue-cancel, total_overdue-add_event,
  length-cancel, length-add_event, time_point-postponed,
}

module _ {ℓ} {C : Type ℓ} where
  -- How many events the calls add, and for how long those have been due.
  abbrev pub added : List (ManagerCall C) → ℕ
  added [] = 0
  added (adds e ∷ calls) = 1 + added calls
  added (cancels name ∷ calls) = added calls

  abbrev calls_overdue : ℕ → List (ManagerCall C) → ℕ
  calls_overdue now [] = 0
  calls_overdue now (adds e ∷ calls) = overdue now e + calls_overdue now calls
  calls_overdue now (cancels name ∷ calls) = calls_overdue now calls

  added-append : (xs ys : List (ManagerCall C)) → added (xs ++ ys) ≡ added xs + added ys
  added-append [] ys = omega arith
  added-append (adds e ∷ xs) ys = omega (arith, added-append xs ys)
  added-append (cancels n ∷ xs) ys = added-append xs ys

  calls_overdue-append :
      (now : ℕ) (xs ys : List (ManagerCall C))
      → calls_overdue now (xs ++ ys) ≡ calls_overdue now xs + calls_overdue now ys
  calls_overdue-append now [] ys = omega arith
  calls_overdue-append now (adds e ∷ xs) ys = omega (arith, calls_overdue-append now xs ys)
  calls_overdue-append now (cancels n ∷ xs) ys = calls_overdue-append now xs ys

  abbrev OfAdded {κ} : (TimedEvent C → Type κ) → ManagerCall C → Type κ
  OfAdded P (adds e) = P e
  OfAdded P (cancels name) = Unit

  -- What is left of the list when the calls were made.
  record IsLeft {κ} (P : TimedEvent C → Type κ) (now bound capacity : ℕ) (es : List (TimedEvent C))
      : Type κ where
    sorted : IsSorted es
    all : All P es
    measure : total_overdue now es ≤ bound
    room : length es ≤ capacity

  apply_calls-IsLeft {κ} :
      (P : TimedEvent C → Type κ) (now capacity bound : ℕ) (calls : List (ManagerCall C))
      (es : List (TimedEvent C))
      → IsSorted es
      → All P es
      → All (OfAdded P) calls
      → added calls + length es ≤ capacity
      → total_overdue now es + calls_overdue now calls ≤ bound
      → (left : List (TimedEvent C)) × (apply_calls capacity calls es ≡ some left)
        × IsLeft P now bound capacity left
  unfolding apply_calls
  apply_calls-IsLeft P now capacity bound [] es s a c r m =
      (es, refl, record { sorted = s; all = a; measure = omega arith; room = omega arith })
  apply_calls-IsLeft P now capacity bound (adds e ∷ calls) es s a c r m =
      let free : leb capacity (length es) ≡ false = ground arith in
      let (left, made, good) =
        apply_calls-IsLeft P now capacity bound calls (add_event e es) (add_event-IsSorted e es s)
          (add_event-All P e es c.0 a) c.1 (omega (arith, length-add_event e es))
          (omega (arith, total_overdue-add_event now e es)) in
      (left, rw (free, apply_calls) made, good)
  apply_calls-IsLeft P now capacity bound (cancels name ∷ calls) es s a c r m =
      apply_calls-IsLeft P now capacity bound calls (cancel name es).0 (cancel-IsSorted name es s)
        (cancel-All P name es a) c.1 (omega (arith, length-cancel name es))
        (omega (arith, total_overdue-cancel now name es))

  module _ {S : Type ℓ} (run : C → S → List (TimedEvent C) → S × List (ManagerCall C)) where
    -- A repeated event moves on, and one event at most is added for an event that is executed, the
    -- event itself included if it is repeated.
    pub record IsTame (e : TimedEvent C) : Type ℓ where
      pub advances : Advances e
      pub adds_one :
          (s : S) (es : List (TimedEvent C))
          → added (run e.callback s es).1 + (if e.repeat then 1 else 0) ≤ 1

    abbrev IsFuture : ℕ → TimedEvent C → Type ℓ
    IsFuture now e = (now < e.time_point) × IsTame e

    -- A callback adds no event that is due at once.
    unfoldable pub AddsLater : ℕ → Type ℓ
    AddsLater now =
        (c : C) (s : S) (es : List (TimedEvent C)) → All (OfAdded (IsFuture now)) (run c s es).1

    -- What `execute_expired_events` leaves.
    pub record IsExecuted (now : ℕ) (r : Run run) : Type 0 where
      pub sorted : IsSorted r.events
      pub pending : All (IsPending now) r.events

    future_calls :
        (now : ℕ) (calls : List (ManagerCall C))
        → All (OfAdded (IsFuture now)) calls
        → All (OfAdded IsTame) calls × (calls_overdue now calls ≡ 0)
    future_calls now [] h = (tt, refl)
    future_calls now (adds e ∷ calls) h =
        let (tame, none_due) = future_calls now calls h.1 in
        let later : now < e.time_point = h.0.0 in ((h.0.1, tame), omega arith)
    future_calls now (cancels name ∷ calls) h =
        let (tame, none_due) = future_calls now calls h.1 in ((tt, tame), none_due)

    postponed-IsTame : (e : TimedEvent C) → IsTame e → IsTame (postponed e)
    unfolding postponed
    postponed-IsTame e t = record { advances = t.advances; adds_one = t.adds_one }

    if-calls :
        (now due : ℕ) (again : Bool) (e : TimedEvent C)
        → IsTame e
        → (again ≡ true → overdue now e < due)
        → 0 < due
        → All (OfAdded IsTame) (if again then adds e ∷ [] else [])
          × (added (if again then adds e ∷ [] else []) ≡ (if again then 1 else 0))
          × (calls_overdue now (if again then adds e ∷ [] else []) < due)
    if-calls now due true e t less pos =
        let l : overdue now e < due = less refl in ((t, tt), refl, omega arith)
    if-calls now due false e t less pos = (tt, refl, pos)

    rearm-calls :
        (now : ℕ) (e : TimedEvent C)
        → IsTame e
        → is_after e now ≡ false
        → All (OfAdded IsTame) (rearm e)
          × (added (rearm e) ≡ (if e.repeat then 1 else 0))
          × (calls_overdue now (rearm e) < overdue now e)
    unfolding rearm is_after
    rearm-calls now e t due =
        let le : e.time_point ≤ now = ground arith in
        if-calls now (overdue now e) e.repeat (postponed e) (postponed-IsTame e t)
          (λ again.
            let pos : 0 < e.repeat_delay = t.advances again in
            omega (arith, time_point-postponed e))
          (omega arith)

    -- The list after the first event was executed.
    round-IsLeft :
        (capacity now : ℕ) (e : TimedEvent C) (es : List (TimedEvent C)) (state : S)
        → AddsLater now
        → is_after e now ≡ false
        → IsSorted es
        → IsTame e
        → All IsTame es
        → length es + 1 ≤ capacity
        → (bound : ℕ) × (left : List (TimedEvent C)) × (apply_calls capacity
              ((run e.callback state es).1 ++ rearm e)
              es
            ≡ some left)
          × IsLeft IsTame now bound capacity left
          × (bound < total_overdue now (e ∷ es))
    unfolding AddsLater
    round-IsLeft capacity now e es state later due s t a room =
        let calls = (run e.callback state es).1 in
        let (tame, none_due) = future_calls now calls (later e.callback state es) in
        let (again, count, less) = rearm-calls now e t due in
        let bound = total_overdue now es + calls_overdue now (rearm e) in
        let (left, made, good) =
          apply_calls-IsLeft IsTame now capacity bound (calls ++ rearm e) es s a
            (All-append (OfAdded IsTame) calls (rearm e) tame again)
            (omega (arith, added-append calls (rearm e), t.adds_one state es))
            (omega (arith, calls_overdue-append now calls (rearm e))) in
        (bound, left, made, good, omega arith)

    execute_loop-IsExecuted :
        (capacity fuel now : ℕ) (events : List (TimedEvent C)) (state : S) (count : ℕ)
        → AddsLater now
        → IsSorted events
        → All IsTame events
        → length events ≤ capacity
        → total_overdue now events < fuel
        → (r : Run run) × (execute_loop run capacity fuel now
              (record { events = events; state = state; count = count })
            ≡ ended r)
          × IsExecuted now r
    unfolding execute_loop
    execute_loop-IsExecuted capacity zero now es state count later s a room m = absurd (omega arith)
    execute_loop-IsExecuted capacity (suc fuel) now [] state count later s a room m = (
      record { events = []; state = state; count = count },
      refl,
      record { sorted = tt; pending = tt },
    )
    execute_loop-IsExecuted capacity (suc fuel) now (e ∷ es) state count later s a room m =
        elim (Bool-cases (is_after e now)) [
          | inl after ↦
              let lt : now < e.time_point = unfold is_after in ground arith in
              (
                record { events = e ∷ es; state = state; count = count },
                rw (after, execute_loop),
                record { sorted = s; pending = (lt, IsPending-sorted now e es lt s.0) },
              )
          | inr due ↦
              let (bound, left, made, good, less) =
                round-IsLeft capacity now e es state later due s.1 a.0 a.1 (omega arith) in
              let (r, ends, done) =
                execute_loop-IsExecuted capacity fuel now left (run e.callback state es).0
                  (count + 1) later good.sorted good.all good.room (omega (arith, good.measure)) in
              (r, rw (due, execute_loop) (rw made ends), done)
        ]

    -- `execute_expired_events` ends, also if the callbacks add and cancel events: it leaves a sorted
    -- list of events that are all in the future, and its iterator never dangles. The list must be
    -- sorted and no longer than the capacity of the vector. A repeated event must have a positive
    -- delay. A callback must add no event that is due at once, and one event at most, or none
    -- if its own event is repeated.
    pub execute_expired_events_total :
        (capacity now : ℕ) (events : List (TimedEvent C)) (state : S)
        → AddsLater now
        → IsSorted events
        → All IsTame events
        → length events ≤ capacity
        → (r : Run run) × (execute_expired_events run capacity
              (total_overdue now events + 1)
              now
              events
              state
            ≡ ended r)
          × IsExecuted now r
    unfolding execute_expired_events
    execute_expired_events_total capacity now events state later s a room =
        execute_loop-IsExecuted capacity (total_overdue now events + 1) now events state 0 later s a
          room (omega arith)
