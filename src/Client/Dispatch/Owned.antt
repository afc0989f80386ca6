-- ===== src/Client/Dispatch/Owned.antt =====
-- `parse_in_buffer` and the ownership of the channels.
use biboumi.Base.{
  ℕ, zero, suc, ◌≤◌, some, List, [], ◌∷◌, ◌≡◌, arith, Bytes, ltb, ◌&&◌, ◌||◌, Option-cases,
  Bool-cases, inl, inr, length, lookup, bytes_eq, eq_bytes,
}
use mathlib.Core.Path.{subst}
use biboumi.Irc.Message.{IrcMessage, parse}
use biboumi.Client.Membership.Owned.{Owned, Keeps}
use biboumi.Client.Errors.Owned.{on_unknown_message-Owned}
use biboumi.Client.Dispatch.{
  Callback, caught, irc_callbacks, call_back, handle_line, cut_crlf, parse_lines, parse_in_buffer,
}
use biboumi.World.{World, Outcome, ok, thrown, fault, ◌>>=◌}
use biboumi.Client.Dispatch.Keeping.{IsKeeping, AllKeeping, ◌⨾◌, irc_callbacks-AllKeeping}

lookup-IsKeeping :
    (name : Bytes) (cb : Callback) (table : List (Bytes × Callback))
    → lookup name table ≡ some cb
    → AllKeeping table
    → IsKeeping (name, cb)
unfolding lookup
lookup-IsKeeping name cb [] e a = cc
lookup-IsKeeping name cb ((n, c) ∷ table) e (k ⨾ a) = elim (Bool-cases (eq_bytes n name)) [
  | inl same ↦ let e' : c ≡ cb = ground arith in subst (λ (d : Callback). IsKeeping (name, d)) e' k
  | inr other ↦ lookup-IsKeeping name cb table (rw other at e) a
]

caught-Owned : (o : Outcome World) → Keeps Owned o → Keeps Owned (caught o)
caught-Owned (ok w) h = h
caught-Owned (thrown w) h = h
caught-Owned (fault e) h = tt

call_back-Owned :
    (cb : Callback) (m : IrcMessage) (w : World)
    → IsKeeping ([], cb)
    → Owned w
    → Keeps Owned (call_back (some cb) m w)
unfolding call_back
call_back-Owned cb m w k o =
    elim (Bool-cases
      (ltb (length m.arguments) cb.min || (ltb 0 cb.max && ltb cb.max (length m.arguments)))) [
        | inl refused ↦ rw (refused, call_back) o
        | inr accepted ↦
            let enough : cb.min ≤ length m.arguments = ground arith in
            rw (accepted, call_back) (caught-Owned (cb.handler m w) (k m w enough o))
      ]

handle_line-Owned : (text : Bytes) (w : World) → Owned w → Keeps Owned (handle_line text w)
unfolding handle_line
handle_line-Owned text w o = elim (Option-cases (lookup (parse text).command irc_callbacks)) [
  | inl unknown ↦
      rw (unknown, handle_line) (unfold call_back in on_unknown_message-Owned (parse text) w o)
  | inr (cb, found) ↦
      rw (found, handle_line)
        (call_back-Owned cb (parse text) w
          (lookup-IsKeeping (parse text).command cb irc_callbacks found irc_callbacks-AllKeeping) o)
]

-- The state that the reading of the buffer leaves, if it runs into no undefined behaviour.
abbrev pub KeepsBuffer : Outcome (Bytes × World) → Type 0
KeepsBuffer (ok (left, w)) = Owned w
KeepsBuffer (thrown w) = Owned w
KeepsBuffer (fault e) = Unit

KeepsBuffer-then :
    (o : Outcome World) (f : World → Outcome (Bytes × World))
    → Keeps Owned o
    → ((w : World) → Owned w → KeepsBuffer (f w))
    → KeepsBuffer (o >>= f)
KeepsBuffer-then (ok w) f h k = k w h
KeepsBuffer-then (thrown w) f h k = h
KeepsBuffer-then (fault e) f h k = tt

parse_lines-Owned : (n : ℕ) (buf : Bytes) (w : World) → Owned w → KeepsBuffer (parse_lines n buf w)
unfolding parse_lines
parse_lines-Owned zero buf w o = o
parse_lines-Owned (suc n) buf w o = elim (Option-cases (cut_crlf buf)) [
  | inl no_line ↦ rw (no_line, parse_lines) o
  | inr (found, e) ↦
      rw (e, parse_lines)
        (KeepsBuffer-then (handle_line found.0 w) _ (handle_line-Owned found.0 w o)
          λ w' o'. parse_lines-Owned n found.1 w' o')
]

-- Whatever bytes the server sends, every channel stays well owned, unless a handler runs into
-- undefined behaviour.
pub parse_in_buffer-Owned :
    (buf : Bytes) (w : World) → Owned w → KeepsBuffer (parse_in_buffer buf w)
unfolding parse_in_buffer
parse_in_buffer-Owned buf w o = parse_lines-Owned (length buf) buf w o
