-- ===== src/Xmpp/Adhoc/Changes.antt =====
-- What a request for an ad-hoc command can do to the handler (xmpp/adhoc_commands_handler.cpp), as a
-- rule for invariants.
use biboumi.Base.{
  ℕ, Bool, true, false, not, ◌&&◌, ◌||◌, Option, none, some, ◌≡◌, inl, inr, ◌==◌, if◌then◌else◌,
  Bytes, codes, eq_bytes, is_empty, lookup, insert, pair_eq, bytes_eq, Bool-cases, Option-cases,
}
use biboumi.Xmpp.Node.{XmlNode, get_tag, set_attribute, del_tag}
use biboumi.Config.{Config, is_in_list}
use biboumi.Xmpp.Jid.{to_jid, bare}
use biboumi.Xmpp.Adhoc.{
  AdhocCommand, AdhocSession, action_of, Handler, new_session, get_next_step, remaining_steps,
  open_session, close_session, after_step, execute_step, continue_session, run_command,
  handle_request, add_error,
}

-- Each change that a request of the JID makes keeps `P`: `fresh` is the id of a new session.
pub record IsClosed {Step C : Type 0} (P : Handler Step C → Type 0) (fresh jid : Bytes)
    : Type 0 where
  pub opens :
      (now : ℕ) (s : AdhocSession Step) (h : Handler Step C)
      → P h
      → P (open_session now (fresh, jid) s h)
  pub closes :
      (id : Bytes) (s : AdhocSession Step) (h : Handler Step C)
      → lookup (id, jid) h.sessions ≡ some s
      → P h
      → P (close_session (id, jid) h)
  pub stores :
      (id : Bytes) (s t : AdhocSession Step) (h : Handler Step C)
      → lookup (id, jid) h.sessions ≡ some s
      → P h
      → P (record h { sessions = insert (id, jid) t h.sessions })
  pub goes_on : (c : C) (h : Handler Step C) → P h → P (record h { component = c })

module _ {Step C : Type 0} where
  -- `P` holds after the request, if there is an answer.
  unfoldable pub After : (Handler Step C → Type 0) → Option (Handler Step C × XmlNode) → Type 0
  After P none = Unit
  After P (some r) = P r.0

  module _ (P : Handler Step C → Type 0) (fresh jid : Bytes) (k : IsClosed P fresh jid) where
    if-After :
        (b : Bool) (x y : Option (Handler Step C × XmlNode))
        → After P x
        → After P y
        → After P (if b then x else y)
    if-After true x y p q = p
    if-After false x y p q = q

    after_step-After :
        (id : Bytes) (s t : AdhocSession Step) (answer : XmlNode) (h : Handler Step C)
        → lookup (id, jid) h.sessions ≡ some s
        → P h
        → P (after_step (id, jid) t answer h).0
    unfolding after_step
    after_step-After id s t answer h e p =
        elim (Bool-cases (remaining_steps t == 0 || t.terminated)) [
          | inl b ↦ rw (after_step, b) (k.closes id s h e p)
          | inr b ↦ rw (after_step, b) (k.stores id s t h e p)
        ]

    module _
        (execute : Step → C → AdhocSession Step → XmlNode → C × AdhocSession Step × XmlNode) where
      execute_step-After :
          (id : Bytes) (s : AdhocSession Step) (answer : XmlNode) (h : Handler Step C)
          → lookup (id, jid) h.sessions ≡ some s
          → P h
          → After P (execute_step execute (id, jid) s answer h)
      unfolding execute_step After
      execute_step-After id s answer h found p = elim (Option-cases (get_next_step s)) [
        | inl e ↦ rw (e, execute_step) tt
        | inr ((step, t), e) ↦
            let (component, t', changed) = execute step h.component t answer in
            rw (e, execute_step)
              (after_step-After id s t' changed (record h { component = component }) found
                (k.goes_on component h p))
      ]

      continue_session-After :
          (action id : Bytes) (answer : XmlNode) (h : Handler Step C)
          → P h
          → After P (continue_session execute action (id, jid) answer h)
      unfolding continue_session After
      continue_session-After action id answer h p =
          elim (Option-cases (lookup (id, jid) h.sessions)) [
            | inl e ↦ rw (e, continue_session) p
            | inr (s, e) ↦
                rw (e, continue_session)
                  (if-After _ _ _ (execute_step-After id s answer h e p) (
                    if-After (eq_bytes action (codes "cancel"))
                      (some (
                        close_session (id, jid) h,
                        set_attribute (codes "status") (codes "canceled") answer,
                      ))
                      _ (k.closes id s h e p) p))
          ]

      run_command-After :
          (now : ℕ) (action : Bytes) (command : AdhocCommand Step) (to : Bytes) (answer : XmlNode)
          (h : Handler Step C)
          → P h
          → After P (run_command execute now fresh action command jid to answer h)
      unfolding run_command
      run_command-After now action command to answer h p =
          if-After (is_empty (get_tag (codes "sessionid") answer)) _ _
            (continue_session-After action fresh _ _
              (k.opens now (new_session fresh command jid to) h p))
            (continue_session-After action (get_tag (codes "sessionid") answer) answer h p)

      -- An invariant that each change keeps holds after a request.
      pub handle_request-After :
          {Callback : Type 0} (config : Config Callback) (now : ℕ) (to : Bytes)
          (command_node : XmlNode) (h : Handler Step C)
          → P h
          → After P (handle_request execute config now fresh jid to command_node h)
      unfolding handle_request After
      handle_request-After config now to command_node h p =
          let answer = del_tag (codes "action") command_node in
          elim (Option-cases
            (lookup (get_tag (codes "node") (del_tag (codes "action") command_node)) h.commands)) [
              | inl e ↦ rw (e, handle_request) p
              | inr (c, e) ↦
                  rw (e, handle_request)
                    (if-After
                      (c.admin_only && not (is_in_list (codes "admin") (bare (to_jid jid)) config))
                      (some (h, add_error (codes "cancel") (codes "forbidden") answer)) _ p
                      (run_command-After now (action_of command_node) c to answer h p))
            ]
