-- ===== src/Xmpp/Adhoc/Sessions.antt =====
-- The sessions of the ad-hoc commands (xmpp/adhoc_commands_handler.cpp).
use biboumi.Base.{
  ℕ, suc, ◌<◌, Bool, true, false, not, ◌&&◌, ◌||◌, Option, none, some, ◌≡◌, refl, inl, inr, arith,
  ◌==◌, if◌then◌else◌, Bytes, codes, eq_bytes, is_empty, length, lookup, insert, AllFound-insert,
  AllFound-erase, pair_eq, bytes_eq, Bool-cases, Option-cases, get_elem?-some,
}
use biboumi.Xmpp.Node.{XmlNode, get_tag, set_attribute, del_tag}
use biboumi.Config.{Config, is_in_list}
use biboumi.Xmpp.Jid.{to_jid, bare}
use biboumi.Xmpp.Adhoc.{
  AdhocCommand, AdhocSession, action_of, Handler, new_session, get_owner_jid, get_target_jid,
  get_next_step, remaining_steps, remove_session, emplace, open_session, close_session, after_step,
  execute_step, continue_session, run_command, handle_request, add_error,
}

module _ {Step : Type 0} where
  -- In a request with another id than the one that opened the session, its two JIDs are references
  -- to what is gone.
  pub Dangles : Bytes × Bytes → AdhocSession Step → Type 0
  Dangles key s =
      (request : Bytes)
      → eq_bytes request key.0 ≡ false
      → (get_owner_jid request s ≡ none) × (get_target_jid request s ≡ none)

  -- A session that waits for a request: it has a step left, was not terminated, and no request
  -- with another id can read its JIDs.
  pub record IsLive (key : Bytes × Bytes) (s : AdhocSession Step) : Type 0 where
    step_left : s.current_step < length s.command.callbacks
    goes_on : s.terminated ≡ false
    dangles : Dangles key s

  module _ {C : Type 0} where
    pub record WellFormed (h : Handler Step C) : Type 0 where
      pub commands_have_steps :
          (name : Bytes) (c : AdhocCommand Step)
          → lookup name h.commands ≡ some c
          → 0 < length c.callbacks
      pub sessions_are_live :
          (key : Bytes × Bytes) (s : AdhocSession Step)
          → lookup key h.sessions ≡ some s
          → IsLive key s

    -- There is an answer, and a well-formed handler.
    pub IsAnswered : Option (Handler Step C × XmlNode) → Type 0
    IsAnswered none = ⊥
    IsAnswered (some r) = WellFormed r.0

    if-IsAnswered :
        (b : Bool) (x y : Option (Handler Step C × XmlNode))
        → IsAnswered x
        → IsAnswered y
        → IsAnswered (if b then x else y)
    if-IsAnswered true x y p q = p
    if-IsAnswered false x y p q = q

    insert-WellFormed :
        (key : Bytes × Bytes) (s : AdhocSession Step) (h : Handler Step C)
        → IsLive key s
        → WellFormed h
        → WellFormed (record h { sessions = insert key s h.sessions })
    insert-WellFormed key s h live w = record {
      commands_have_steps = w.commands_have_steps;
      sessions_are_live = AllFound-insert IsLive key s h.sessions live w.sessions_are_live;
    }

    remove_session-WellFormed :
        (key : Bytes × Bytes) (h : Handler Step C)
        → WellFormed h
        → WellFormed (remove_session key h)
    unfolding remove_session
    remove_session-WellFormed key h w = record {
      commands_have_steps = w.commands_have_steps;
      sessions_are_live = AllFound-erase IsLive key h.sessions w.sessions_are_live;
    }

    close_session-WellFormed :
        (key : Bytes × Bytes) (h : Handler Step C) → WellFormed h → WellFormed (close_session key h)
    unfolding close_session
    close_session-WellFormed key h w =
        let v = remove_session-WellFormed key h w in
        record {
          commands_have_steps = v.commands_have_steps;
          sessions_are_live = v.sessions_are_live;
        }

    emplace-WellFormed :
        (key : Bytes × Bytes) (s : AdhocSession Step) (h : Handler Step C)
        → IsLive key s
        → WellFormed h
        → WellFormed (emplace key s h)
    unfolding emplace
    emplace-WellFormed key s h live w = elim (Option-cases (lookup key h.sessions)) [
      | inl e ↦ rw (emplace, e) (insert-WellFormed key s h live w)
      | inr (t, e) ↦ rw (emplace, e) w
    ]

    open_session-WellFormed :
        (now : ℕ) (key : Bytes × Bytes) (s : AdhocSession Step) (h : Handler Step C)
        → IsLive key s
        → WellFormed h
        → WellFormed (open_session now key s h)
    unfolding open_session
    open_session-WellFormed now key s h live w =
        let v = emplace-WellFormed key s h live w in
        record {
          commands_have_steps = v.commands_have_steps;
          sessions_are_live = v.sessions_are_live;
        }

    after_step-WellFormed :
        (key : Bytes × Bytes) (s : AdhocSession Step) (answer : XmlNode) (h : Handler Step C)
        → Dangles key s
        → WellFormed h
        → WellFormed (after_step key s answer h).0
    unfolding after_step remaining_steps
    after_step-WellFormed key s answer h own w =
        elim (Bool-cases (remaining_steps s == 0 || s.terminated)) [
          | inl e ↦ rw (after_step, e) (close_session-WellFormed key h w)
          | inr e ↦
              rw (after_step, e)
                (insert-WellFormed key s h
                  (record { step_left = ground arith; goes_on = ground arith; dangles = own }) w)
        ]

    module _
        (execute : Step → C → AdhocSession Step → XmlNode → C × AdhocSession Step × XmlNode) where
      -- A step leaves the references of its session, which C++ does not let it change.
      unfoldable pub KeepsReferences : Type 0
      KeepsReferences =
          (step : Step) (c : C) (s : AdhocSession Step) (answer : XmlNode)
          → ((execute step c s answer).1.owner_jid ≡ s.owner_jid)
            × ((execute step c s answer).1.to_jid_of ≡ s.to_jid_of)

      step-Dangles :
          (key : Bytes × Bytes) (s t : AdhocSession Step)
          → (t.owner_jid ≡ s.owner_jid) × (t.to_jid_of ≡ s.to_jid_of)
          → Dangles key s
          → Dangles key t
      unfolding Dangles get_owner_jid get_target_jid
      step-Dangles key s t e d request other =
          (rw (e.0) ((d request other).0), rw (e.1) ((d request other).1))

      execute_step-IsAnswered :
          (key : Bytes × Bytes) (s : AdhocSession Step) (answer : XmlNode) (h : Handler Step C)
          → KeepsReferences
          → IsLive key s
          → WellFormed h
          → IsAnswered (execute_step execute key s answer h)
      unfolding execute_step get_next_step IsAnswered KeepsReferences
      execute_step-IsAnswered key s answer h keeps live w =
          let (step, e) = get_elem?-some s.command.callbacks s.current_step live.step_left in
          let s' = record s { current_step = suc s.current_step } in
          let (component, t, changed) = execute step h.component s' answer in
          rw (e, get_next_step, execute_step)
            (after_step-WellFormed key t changed (record h { component = component })
              (step-Dangles key s t (keeps step h.component s' answer) live.dangles)
              (record {
                commands_have_steps = w.commands_have_steps;
                sessions_are_live = w.sessions_are_live;
              }))

      continue_session-IsAnswered :
          (action : Bytes) (key : Bytes × Bytes) (answer : XmlNode) (h : Handler Step C)
          → KeepsReferences
          → WellFormed h
          → IsAnswered (continue_session execute action key answer h)
      unfolding continue_session IsAnswered
      continue_session-IsAnswered action key answer h keeps w =
          elim (Option-cases (lookup key h.sessions)) [
            | inl e ↦ rw (e, continue_session) w
            | inr (s, e) ↦
                let run =
                  execute_step-IsAnswered key s answer h keeps (w.sessions_are_live key s e) w in
                let close = close_session-WellFormed key h w in
                rw (e, continue_session)
                  (if-IsAnswered _ _ _ run (
                    if-IsAnswered (eq_bytes action (codes "cancel"))
                      (some (
                        close_session key h,
                        set_attribute (codes "status") (codes "canceled") answer,
                      ))
                      _ close w))
          ]

      new_session-Dangles :
          (fresh jid to : Bytes) (command : AdhocCommand Step)
          → Dangles (fresh, jid) (new_session fresh command jid to)
      unfolding Dangles new_session get_owner_jid get_target_jid
      new_session-Dangles fresh jid to command request other = (rw other refl, rw other refl)

      run_command-IsAnswered :
          (now : ℕ) (fresh action : Bytes) (command : AdhocCommand Step) (jid to : Bytes)
          (answer : XmlNode) (h : Handler Step C)
          → KeepsReferences
          → 0 < length command.callbacks
          → WellFormed h
          → IsAnswered (run_command execute now fresh action command jid to answer h)
      unfolding run_command new_session
      run_command-IsAnswered now fresh action command jid to answer h keeps some_step w =
          elim (Bool-cases (is_empty (get_tag (codes "sessionid") answer))) [
            | inl e ↦
                rw (e, run_command)
                  (continue_session-IsAnswered action (fresh, jid) _ _ keeps
                    (open_session-WellFormed now (fresh, jid) (new_session fresh command jid to) h
                      (record {
                        step_left = some_step;
                        goes_on = refl;
                        dangles = new_session-Dangles fresh jid to command;
                      })
                      w))
            | inr e ↦
                rw (e, run_command)
                  (continue_session-IsAnswered action (get_tag (codes "sessionid") answer, jid)
                    answer h keeps w)
          ]

      -- Every request has an answer, no step is read past the end of the callbacks of a command, and
      -- the sessions that are kept go on: each has a step left and was not terminated. The JIDs of a
      -- session are references that dangle in every request but the one that opened it. Each
      -- command must have a step, and a step must leave the references of its session.
      pub handle_request-IsAnswered :
          {Callback : Type 0} (config : Config Callback) (now : ℕ) (fresh jid to : Bytes)
          (command_node : XmlNode) (h : Handler Step C)
          → KeepsReferences
          → WellFormed h
          → IsAnswered (handle_request execute config now fresh jid to command_node h)
      unfolding handle_request IsAnswered
      handle_request-IsAnswered config now fresh jid to command_node h keeps w =
          let answer = del_tag (codes "action") command_node in
          elim (Option-cases
            (lookup (get_tag (codes "node") (del_tag (codes "action") command_node)) h.commands)) [
              | inl e ↦ rw (e, handle_request) w
              | inr (c, e) ↦
                  rw (e, handle_request)
                    (if-IsAnswered
                      (c.admin_only && not (is_in_list (codes "admin") (bare (to_jid jid)) config))
                      (some (h, add_error (codes "cancel") (codes "forbidden") answer)) _ w
                      (run_command-IsAnswered now fresh (action_of command_node) c jid to answer h
                        keeps (w.commands_have_steps _ c e) w))
            ]
