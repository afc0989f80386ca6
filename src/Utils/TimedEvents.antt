-- ===== src/Utils/TimedEvents.antt =====
-- src/utils/timed_events.cpp and timed_events_manager.cpp. A time is a number of clock ticks. What
-- a callback does is not known here: `C` is the type of callbacks, and `run` executes one on the
-- state `S` of the rest of the program, with the list of events to read. It gives the calls of
-- `add_event` and `cancel` that the callback makes.
pub mod Expiry
pub mod Order
use biboumi.Base.{
  ℕ, zero, suc, ◌+◌, ◌-◌, Bool, true, false, not, Option, none, some, List, [], ◌∷◌, ◌++◌, ltb, leb,
  if◌then◌else◌, Bytes, eq_bytes, length,
}

pub record TimedEvent {ℓ} (C : Type ℓ) : Type ℓ where
  pub time_point : ℕ
  pub callback : C
  pub repeat : Bool
  pub repeat_delay : ℕ
  pub name : Bytes

-- A change of the list of events that a callback asks for.
pub data ManagerCall {ℓ} (C : Type ℓ) : Type ℓ where
  adds : TimedEvent C → ManagerCall C
  cancels : Bytes → ManagerCall C

module _ {ℓ} {C : Type ℓ} where
  -- The constructor from a time point, and the one from a duration.
  unfoldable pub once : ℕ → C → Bytes → TimedEvent C
  once time_point callback name = record {
    time_point = time_point;
    callback = callback;
    repeat = false;
    repeat_delay = 0;
    name = name;
  }

  unfoldable pub every : ℕ → ℕ → C → Bytes → TimedEvent C
  every now duration callback name = record {
    time_point = now + duration;
    callback = callback;
    repeat = true;
    repeat_delay = duration;
    name = name;
  }

  unfoldable pub is_after : TimedEvent C → ℕ → Bool
  is_after event time_point = ltb time_point event.time_point

  -- `std::max(diff, 0ms)`
  unfoldable pub event_timeout : TimedEvent C → ℕ → ℕ
  event_timeout event now = event.time_point - now

  unfoldable pub add_event : TimedEvent C → List (TimedEvent C) → List (TimedEvent C)
  unfolding is_after
  add_event event [] = event ∷ []
  add_event event (it ∷ events) =
      if is_after it event.time_point then event ∷ it ∷ events else it ∷ add_event event events

  -- `none` stands for `utils::no_timeout`.
  unfoldable pub get_timeout : List (TimedEvent C) → ℕ → Option ℕ
  unfolding event_timeout
  get_timeout [] now = none
  get_timeout (event ∷ events) now = some (event_timeout event now)

  unfoldable pub cancel : Bytes → List (TimedEvent C) → List (TimedEvent C) × ℕ
  cancel name [] = ([], 0)
  cancel name (event ∷ events) =
      let (kept, res) = cancel name events in
      if eq_bytes event.name name then (kept, res + 1) else (event ∷ kept, res)

  unfoldable pub find_event : Bytes → List (TimedEvent C) → Option (TimedEvent C)
  find_event name [] = none
  find_event name (event ∷ events) =
      if eq_bytes event.name name then some event else find_event name events

  unfoldable pub postponed : TimedEvent C → TimedEvent C
  postponed event = record event { time_point = event.time_point + event.repeat_delay }

  -- Calls that are made while the loop holds an iterator at the first place of the vector. It still
  -- points there when elements were moved within the vector; `none` is a vector that was
  -- reallocated, because it had no place for one more event, and an iterator that dangles.
  unfoldable pub apply_calls :
      ℕ → List (ManagerCall C) → List (TimedEvent C) → Option (List (TimedEvent C))
  unfolding add_event cancel
  apply_calls capacity [] events = some events
  apply_calls capacity (adds event ∷ calls) events =
      if leb capacity (length events)
      then none
      else apply_calls capacity calls (add_event event events)
  apply_calls capacity (cancels name ∷ calls) events =
      apply_calls capacity calls (cancel name events).0

  -- What follows a callback.
  unfoldable pub rearm : TimedEvent C → List (ManagerCall C)
  unfolding postponed
  rearm event = if event.repeat then adds (postponed event) ∷ [] else []

  module _ {S : Type ℓ} (run : C → S → List (TimedEvent C) → S × List (ManagerCall C)) where
    pub record Run : Type ℓ where
      pub events : List (TimedEvent C)
      pub state : S
      pub count : ℕ

    -- `dangling` is undefined behaviour: the loop goes on with an iterator into freed memory.
    pub data Execution : Type ℓ where
      ended : Run → Execution
      dangling out_of_rounds : Execution

    -- The loop of `execute_expired_events`, with a bound on its rounds. The iterator is always at
    -- the first place, and `capacity` is that of the vector.
    unfoldable pub execute_loop : ℕ → ℕ → ℕ → Run → Execution
    unfolding apply_calls rearm is_after
    execute_loop capacity zero now r = out_of_rounds
    execute_loop capacity (suc fuel) now r = elim r.events [
      | [] ↦ ended r
      | event ∷ events ↦ elim (is_after event now) [
        | true ↦ ended r
        | false ↦
            let (state, calls) = run event.callback r.state events in
            elim (apply_calls capacity (calls ++ rearm event) events) [
              | none ↦ dangling
              | some left ↦
                  execute_loop capacity fuel now
                    (record { events = left; state = state; count = r.count + 1 })
            ]
      ]
    ]

    unfoldable pub execute_expired_events : ℕ → ℕ → ℕ → List (TimedEvent C) → S → Execution
    unfolding execute_loop
    execute_expired_events capacity fuel now events state =
        execute_loop capacity fuel now (record { events = events; state = state; count = 0 })
