-- ===== src/Xmpp/Adhoc/Isolation.antt =====
-- Which sessions a request for an ad-hoc command can change (xmpp/adhoc_commands_handler.cpp).
use biboumi.Base.{
  ℕ, false, ◌≡◌, ◌≢◌, refl, ap, sym, inl, inr, arith, Bytes, lookup, lookup-insert, lookup-erase,
  eq_pair, eq_pair_iff, pair_eq, bytes_eq, Bool-cases,
}
use biboumi.Xmpp.Node.{XmlNode}
use biboumi.Config.{Config}
use biboumi.Xmpp.Adhoc.{
  AdhocSession, Handler, remove_session, emplace, open_session, close_session, handle_request,
}
use biboumi.Xmpp.Adhoc.Changes.{IsClosed, After, handle_request-After}

pub other_key : (key : Bytes × Bytes) (id jid : Bytes) → key.1 ≢ jid → eq_pair (id, jid) key ≡ false
other_key key id jid ne = elim (Bool-cases (eq_pair (id, jid) key)) [
  | inl e ↦ absurd (ne (sym (ap (λ p. p.1) ((eq_pair_iff (id, jid) key).0 e))))
  | inr e ↦ e
]

module _ {Step C : Type 0} (key : Bytes × Bytes) (h0 : Handler Step C) where
  -- The session of the key, or that there is none, is as in `h0`.
  pub IsSame : Handler Step C → Type 0
  IsSame h = lookup key h.sessions ≡ lookup key h0.sessions

  IsSame-IsClosed : (fresh jid : Bytes) → key.1 ≢ jid → IsClosed IsSame fresh jid
  unfolding open_session emplace close_session remove_session IsSame
  IsSame-IsClosed fresh jid ne = record {
    opens = λ now s h p.
        ground (arith, p, lookup-insert (fresh, jid) key s h.sessions, other_key key fresh jid ne);
    closes = λ id s h e p.
        ground (arith, p, lookup-erase (id, jid) key h.sessions, other_key key id jid ne);
    stores = λ id s t h e p.
        ground (arith, p, lookup-insert (id, jid) key t h.sessions, other_key key id jid ne);
    goes_on = λ c h p. p;
  }

  -- A request leaves the sessions of all JIDs but the one that it comes from, also if it names the
  -- id of such a session.
  pub handle_request-IsSame :
      (execute : Step → C → AdhocSession Step → XmlNode → C × AdhocSession Step × XmlNode)
      {Callback : Type 0} (config : Config Callback) (now : ℕ) (fresh jid to : Bytes)
      (command_node : XmlNode)
      → key.1 ≢ jid
      → After IsSame (handle_request execute config now fresh jid to command_node h0)
  unfolding IsSame
  handle_request-IsSame execute config now fresh jid to command_node ne =
      handle_request-After IsSame fresh jid (IsSame-IsClosed fresh jid ne) execute config now to
        command_node h0 refl
