-- ===== src/Xmpp/Adhoc.antt =====
-- src/xmpp/adhoc_session.cpp and adhoc_commands_handler.cpp, with the class `AdhocCommand` of
-- adhoc_command.hpp. A `Step` names a callback of a command, which `execute` runs on the state `C`
-- of the component. The session of a C++ step is a reference into the map of the sessions: it is
-- taken out, and written back.
pub mod Changes
pub mod Isolation
pub mod Steps
pub mod Sessions
pub mod Timers
use biboumi.Base.{
  ℕ, suc, ◌+◌, ◌*◌, ◌-◌, Bool, true, false, not, ◌&&◌, ◌||◌, Option, none, some, List, [], ◌∷◌,
  ◌++◌, get_elem?, ◌==◌, if◌then◌else◌, Bytes, codes, eq_bytes, is_empty, length, lookup, insert,
  erase, bytes_eq, pair_eq,
}
use biboumi.Utils.TimedEvents.{TimedEvent, once, add_event, cancel}
use biboumi.Xmpp.Jid.{to_jid, bare}
use biboumi.Xmpp.Node.{XmlNode, make_node, make_node_ns, set_attribute, get_tag, del_tag, add_child}
use biboumi.Config.{Config, is_in_list}

abbrev pub adhoc_ns : Bytes
adhoc_ns = codes "http://jabber.org/protocol/commands"

abbrev pub stanza_ns : Bytes
stanza_ns = codes "urn:ietf:params:xml:ns:xmpp-stanzas"

-- An `error` child, with its type and its condition.
unfoldable pub add_error : Bytes → Bytes → XmlNode → XmlNode
add_error type condition = add_child (
    add_child (make_node_ns stanza_ns condition)
      (set_attribute (codes "type") type (make_node_ns adhoc_ns (codes "error"))))

pub record AdhocCommand (Step : Type 0) : Type 0 where
  pub name : Bytes
  pub callbacks : List Step
  pub admin_only : Bool

-- A `const std::string&` member, which refers to an argument of a request. The request is named by
-- the id that `next_id` gives in it; the argument lives as long as the request.
pub record Reference : Type 0 where
  pub request : Bytes
  pub referent : Bytes

-- What is read through a reference while a request runs. `none` is undefined behaviour: the
-- argument of an earlier request is gone.
unfoldable pub deref_in : Bytes → Reference → Option Bytes
deref_in request r = if eq_bytes request r.request then some r.referent else none

pub record AdhocSession (Step : Type 0) : Type 0 where
  pub command : AdhocCommand Step
  pub owner_jid : Reference
  pub to_jid_of : Reference
  pub current_step : ℕ
  pub terminated : Bool
  pub vars : List (Bytes × Bytes)

-- The handler, with the events of the `TimedEventsManager` whose callback is `remove_session`.
pub record Handler (Step C : Type 0) : Type 0 where
  pub commands : List (Bytes × AdhocCommand Step)
  pub sessions : List ((Bytes × Bytes) × AdhocSession Step)
  pub events : List (TimedEvent (Bytes × Bytes))
  pub component : C

-- Clock ticks of a second.
abbrev ticks_per_second : ℕ
ticks_per_second = 1000000000

unfoldable pub timer_name : Bytes × Bytes → Bytes
timer_name (sessionid, jid) = codes "adhocsession" ++ (sessionid ++ jid)

-- The action of a request.
unfoldable pub action_of : XmlNode → Bytes
unfolding get_tag
action_of command_node =
    let asked = get_tag (codes "action") command_node in
    if is_empty asked then codes "execute" else asked

module _ {Step : Type 0} where
  -- In the request with that id.
  unfoldable pub new_session : Bytes → AdhocCommand Step → Bytes → Bytes → AdhocSession Step
  new_session request command owner_jid to = record {
    command = command;
    owner_jid = record { request = request; referent = owner_jid };
    to_jid_of = record { request = request; referent = to };
    current_step = 0;
    terminated = false;
    vars = [];
  }

  unfoldable pub get_owner_jid : Bytes → AdhocSession Step → Option Bytes
  unfolding deref_in
  get_owner_jid request s = deref_in request s.owner_jid

  unfoldable pub get_target_jid : Bytes → AdhocSession Step → Option Bytes
  unfolding deref_in
  get_target_jid request s = deref_in request s.to_jid_of

  -- `none` is the index past the end of the callbacks.
  unfoldable pub get_next_step : AdhocSession Step → Option (Step × AdhocSession Step)
  get_next_step s = elim (get_elem? s.command.callbacks s.current_step) [
    | none ↦ none
    | some step ↦ some (step, record s { current_step = suc s.current_step })
  ]

  unfoldable pub remaining_steps : AdhocSession Step → ℕ
  remaining_steps s = length s.command.callbacks - s.current_step

  unfoldable pub terminate : AdhocSession Step → AdhocSession Step
  terminate s = record s { terminated = true }

  unfoldable pub add_actions : AdhocSession Step → XmlNode → XmlNode
  unfolding remaining_steps
  add_actions s = add_child (
      add_child (make_node (if remaining_steps s == 1 then codes "complete" else codes "next"))
        (make_node (codes "actions")))

  module _ {C : Type 0} where
    -- `none` is the exception: there is a command of that name.
    unfoldable pub add_command :
        Bytes → AdhocCommand Step → Handler Step C → Option (Handler Step C)
    add_command name command h = elim (lookup name h.commands) [
      | some there ↦ none
      | none ↦ some (record h { commands = insert name command h.commands })
    ]

    unfoldable pub remove_session : Bytes × Bytes → Handler Step C → Handler Step C
    remove_session key h = record h { sessions = erase key h.sessions }

    -- `std::map::emplace`, which keeps what is there.
    unfoldable pub emplace : Bytes × Bytes → AdhocSession Step → Handler Step C → Handler Step C
    emplace key s h = elim (lookup key h.sessions) [
      | some there ↦ h
      | none ↦ record h { sessions = insert key s h.sessions }
    ]

    -- The session of a request without a session id.
    unfoldable pub open_session :
        ℕ → Bytes × Bytes → AdhocSession Step → Handler Step C → Handler Step C
    unfolding emplace timer_name
    open_session now key s h =
        let h' = emplace key s h in
        record h' {
          events = add_event (once (now + 3600 * ticks_per_second) key (timer_name key)) h'.events;
        }

    unfoldable pub close_session : Bytes × Bytes → Handler Step C → Handler Step C
    unfolding remove_session timer_name
    close_session key h =
        let h' = remove_session key h in
        record h' { events = (cancel (timer_name key) h'.events).0 }

    -- What follows a step.
    unfoldable pub after_step :
        Bytes × Bytes → AdhocSession Step → XmlNode → Handler Step C → Handler Step C × XmlNode
    unfolding close_session remaining_steps add_actions
    after_step key s answer h =
        if remaining_steps s == 0 || s.terminated
        then (close_session key h, set_attribute (codes "status") (codes "completed") answer)
        else (
          record h { sessions = insert key s h.sessions },
          add_actions s (set_attribute (codes "status") (codes "executing") answer),
        )

    module _
        (execute : Step → C → AdhocSession Step → XmlNode → C × AdhocSession Step × XmlNode) where
      unfoldable pub execute_step :
          Bytes × Bytes
          → AdhocSession Step
          → XmlNode
          → Handler Step C
          → Option (Handler Step C × XmlNode)
      unfolding get_next_step after_step
      execute_step key session answer h = elim (get_next_step session) [
        | none ↦ none
        | some (step, s) ↦
            let (component, s', changed) = execute step h.component s answer in
            some (after_step key s' changed (record h { component = component }))
      ]

      -- A request with the id of a session, or the one that was just made.
      unfoldable pub continue_session :
          Bytes → Bytes × Bytes → XmlNode → Handler Step C → Option (Handler Step C × XmlNode)
      unfolding execute_step close_session add_error
      continue_session action key answer h = elim (lookup key h.sessions) [
        | none ↦ some (h, add_error (codes "modify") (codes "bad-request") answer)
        | some session ↦
            if eq_bytes action (codes "execute")
              || eq_bytes action (codes "next")
              || eq_bytes action (codes "complete")
            then execute_step key session answer h
            else if eq_bytes action (codes "cancel")
            then some
                (close_session key h, set_attribute (codes "status") (codes "canceled") answer)
            else some (h, add_error (codes "modify") (codes "bad-request") answer)
      ]

      -- A request for a command that the executor may run. `fresh` is what `next_id` returns.
      unfoldable pub run_command :
          ℕ
          → Bytes
          → Bytes
          → AdhocCommand Step
          → Bytes
          → Bytes
          → XmlNode
          → Handler Step C
          → Option (Handler Step C × XmlNode)
      unfolding open_session new_session continue_session
      run_command now fresh action command executor_jid to answer h =
          let sessionid = get_tag (codes "sessionid") answer in
          if is_empty sessionid
          then continue_session action (fresh, executor_jid)
              (set_attribute (codes "sessionid") fresh answer)
              (open_session now (fresh, executor_jid) (new_session fresh command executor_jid to) h)
          else continue_session action (sessionid, executor_jid) answer h

      unfoldable pub handle_request :
          {Callback : Type 0}
          → Config Callback
          → ℕ
          → Bytes
          → Bytes
          → Bytes
          → XmlNode
          → Handler Step C
          → Option (Handler Step C × XmlNode)
      unfolding run_command add_error is_in_list to_jid bare
      handle_request config now fresh executor_jid to command_node h =
          let action = action_of command_node in
          let answer = del_tag (codes "action") command_node in
          elim (lookup (get_tag (codes "node") answer) h.commands) [
            | none ↦ some (h, add_error (codes "cancel") (codes "item-not-found") answer)
            | some command ↦
                if command.admin_only
                  && not (is_in_list (codes "admin") (bare (to_jid executor_jid)) config)
                then some (h, add_error (codes "cancel") (codes "forbidden") answer)
                else run_command now fresh action command executor_jid to answer h
          ]
