-- ===== src/Tests/Utils.antt =====
-- Concrete inputs for src/utils.
use biboumi.Base.{
  ℕ, ◌+◌, ◌<◌, ◌≡◌, arith, Bool, true, none, some, List, [], ◌∷◌, ◌++◌, Bytes, codes, All, ◌==◌,
  if◌then◌else◌, Bool-cases, inl, inr,
}
use biboumi.Utils.Strings.{cut, cut_loop, get_next_codepoint_size}
use biboumi.Utils.Strings.Cut.{cut_total, cut_diverges, IsCut}
use biboumi.Utils.TokensBucket.{TokensBucket, at_most}
use biboumi.Utils.TimedEvents.{
  TimedEvent, ManagerCall, adds, cancels, once, every, add_event, Run, ended,
  execute_expired_events,
}
use biboumi.Utils.TimedEvents.Order.{IsSorted, total_overdue, add_event-IsSorted}
use biboumi.Utils.TimedEvents.Expiry.{IsTame, AddsLater, IsExecuted, execute_expired_events_total}

-- A euro sign, of three bytes, after four letters.
abbrev price : Bytes
price = codes "cost" ++ (0xE2 ∷ 0x82 ∷ 0xAC ∷ [])

cut_total_example : (res : List Bytes) × (cut price 6 ≡ some res) × IsCut price 6 res
cut_total_example = cut_total price 6 (omega arith)

euro_size : 2 < get_next_codepoint_size 0xE2
unfolding get_next_codepoint_size
euro_size = omega arith

cut_diverges_example : cut_loop 5 (0xE2 ∷ 0x82 ∷ 0xAC ∷ []) 2 ≡ none
cut_diverges_example = cut_diverges 5 0xE2 (0x82 ∷ 0xAC ∷ []) 2 euro_size

abbrev later : TimedEvent ℕ
later = once 30 1 []

abbrev repeated : TimedEvent ℕ
repeated = every 0 4 2 []

later_alone : IsSorted (later ∷ [])
later_alone = (tt, tt)

add_event-IsSorted_example : IsSorted (add_event repeated (later ∷ []))
add_event-IsSorted_example = add_event-IsSorted repeated (later ∷ []) later_alone

-- Callback 3 cancels the events named "late" and adds another one.
abbrev run_number : ℕ → ℕ → List (TimedEvent ℕ) → ℕ × List (ManagerCall ℕ)
run_number c s es =
    (c + s, if c == 3 then cancels (codes "late") ∷ adds (once 50 1 []) ∷ [] else [])

abbrev events : List (TimedEvent ℕ)
events = repeated ∷ once 5 3 [] ∷ once 30 1 (codes "late") ∷ []

events-IsSorted : IsSorted events
unfolding once every
events-IsSorted = ((omega arith, (omega arith, tt)), ((omega arith, tt), (tt, tt)))

events-AreTame : All (IsTame run_number) events
unfolding once every
events-AreTame = (
  record { advances = λ again. omega arith; adds_one = λ s es. omega arith },
  (
    record { advances = λ again. ground arith; adds_one = λ s es. omega arith },
    (record { advances = λ again. ground arith; adds_one = λ s es. omega arith }, tt),
  ),
)

run_number-AddsLater : AddsLater run_number 10
unfolding AddsLater once
run_number-AddsLater c s es = elim (Bool-cases (c == 3)) [
  | inl e ↦ rw e (
    tt,
    (
      (omega arith, record { advances = λ again. ground arith; adds_one = λ s es. omega arith }),
      tt,
    ),
  )
  | inr e ↦ rw e tt
]

execute_expired_events_total_example :
    (r : Run run_number) × (execute_expired_events run_number 3
        (total_overdue 10 events + 1)
        10
        events
        0
      ≡ ended r)
    × IsExecuted run_number 10 r
execute_expired_events_total_example =
    execute_expired_events_total run_number 3 10 events 0 run_number-AddsLater events-IsSorted
      events-AreTame (omega arith)

abbrev always : ℕ → ℕ × Bool
always n = (n, true)

abbrev full : TokensBucket
full = record { limit = at_most 5; tokens = 5 }
