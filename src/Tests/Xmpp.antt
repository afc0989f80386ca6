-- ===== src/Tests/Xmpp.antt =====
-- Concrete inputs for src/xmpp, src/config and src/network.
use biboumi.Base.{
  ℕ, ◌+◌, All, ◌≡◌, ◌≢◌, refl, arith, true, false, some, inl, inr, Option-cases, ◌==◌,
  if◌then◌else◌, List, [], ◌∷◌, ◌++◌, Bytes, codes, length, eq_bytes, has_char, lookup, bytes_eq,
  pair_eq,
}
use biboumi.Config.{Config, conf_text, get, read_conf}
use biboumi.Config.SaveAndRead.{AreWritable, IsWritable, read_conf-conf_text}
use biboumi.Network.{
  Socket, has_none, flatten, offered, raw_send, on_send, remove_sent, stop_if_empty,
}
use biboumi.Network.Delivery.{
  Event, sends, takes, AreTaken, stream, run, sent_by, step, run-sent_by,
}
use biboumi.Network.Progress.{IsSome, IsWatched, TakesSome, send_all, send_all-has_none}
use biboumi.Xmpp.Jid.{Jid, to_jid, full, clean_domain}
use biboumi.Xmpp.Jid.Domain.{IsHostname, clean_domain-IsHostname}
use biboumi.Xmpp.Jid.RoundTrip.{IsPlain, to_jid-full}
use biboumi.Xmpp.Node.{XmlNode, make_node, set_attribute, xml_escape}
use biboumi.Xmpp.Node.Escape.{Unescapes, xml_escape-Unescapes}
use biboumi.Xmpp.Component.{
  user_join_stanza, muc_leave_stanza, kick_user_stanza, nick_change_stanzas,
  affiliation_role_change_stanza,
}
use biboumi.Xmpp.Component.Status.{has_status, has_status-presences}
use biboumi.Xmpp.Parser
use biboumi.Xmpp.Parser.{start_element, end_element, stream_open, stream_close, set_attributes}
use biboumi.Xmpp.Parser.Documents.{Doc, element, no_child, run-stream, stanzas_events, stanza_calls}
use biboumi.Xmpp.Adhoc.{AdhocCommand, AdhocSession, Handler, handle_request, terminate}
use biboumi.Xmpp.Adhoc.Steps.{
  BasicStep, ping_step1, hello_step1, hello_step2, reload, execute_basic, hello_answer,
  provided_name,
}
use biboumi.Xmpp.Adhoc.Changes.{After}
use biboumi.Xmpp.Adhoc.Sessions.{IsAnswered, KeepsReferences, WellFormed, handle_request-IsAnswered}
use biboumi.Xmpp.Adhoc.Isolation.{IsSame, handle_request-IsSame}
use biboumi.Xmpp.Adhoc.Timers.{AreTimed, handle_request-AreTimed}

xml_escape-Unescapes_example : Unescapes (xml_escape (codes "a < b & c")) (codes "a < b & c")
xml_escape-Unescapes_example = xml_escape-Unescapes (codes "a < b & c")

clean_domain-IsHostname_example : IsHostname (clean_domain (codes ".irc..Example_com-"))
clean_domain-IsHostname_example = clean_domain-IsHostname (codes ".irc..Example_com-")

abbrev address : Jid
address = record { local = codes "#a%irc"; domain = codes "biboumi.x"; resource = codes "a/b@c" }

address-IsPlain : IsPlain address
unfolding has_char
address-IsPlain = record {
  local_at = refl;
  local_slash = refl;
  domain_slash = refl;
  domain_at = refl;
}

to_jid-full_example : to_jid (full address) ≡ address
to_jid-full_example = to_jid-full address address-IsPlain

abbrev config : Config ℕ
config = record {
  filename = codes "biboumi.cfg";
  values = (codes "admin", codes "a@x") ∷ (codes "port", codes "53=47") ∷ [];
  callbacks = [];
  saved = [];
  notified = [];
}

config-AreWritable : AreWritable config.values
unfolding AreWritable IsWritable has_char lookup eq_bytes
config-AreWritable = ((refl, refl, refl, refl), refl, ((refl, refl, refl, refl), refl, tt))

read_conf-conf_text_example :
    get (codes "port") [] (read_conf (λ name. some (conf_text config.values)) [] [] config).0
    ≡ get (codes "port") [] config
read_conf-conf_text_example =
    read_conf-conf_text config (λ name. some (conf_text config.values)) (codes "port") []
      config-AreWritable refl

-- A command of two steps.
abbrev hello : AdhocCommand BasicStep
hello = record {
  name = codes "Receive a greeting";
  callbacks = hello_step1 ∷ hello_step2 ∷ [];
  admin_only = false;
}

abbrev handler : Handler BasicStep ℕ
handler = record {
  commands = (codes "hello", hello) ∷ [];
  sessions = [];
  events = [];
  component = 0;
}

abbrev request : XmlNode
request = set_attribute (codes "node") (codes "hello") (make_node (codes "command"))

abbrev execute :
    BasicStep → ℕ → AdhocSession BasicStep → XmlNode → ℕ × AdhocSession BasicStep × XmlNode
execute = execute_basic (λ n. n + 1)

execute-KeepsReferences : KeepsReferences execute
unfolding KeepsReferences execute_basic hello_answer terminate
execute-KeepsReferences ping_step1 c s answer = (refl, refl)
execute-KeepsReferences hello_step1 c s answer = (refl, refl)
execute-KeepsReferences hello_step2 c s answer = elim (Option-cases (provided_name answer)) [
  | inl e ↦ rw (e, hello_answer) (refl, refl)
  | inr (name, e) ↦ rw (e, hello_answer) (refl, refl)
]
execute-KeepsReferences reload c s answer = (refl, refl)

handler-WellFormed : WellFormed handler
unfolding lookup
handler-WellFormed = record {
  commands_have_steps = λ name c e. ground arith;
  sessions_are_live = λ key s e. ground arith;
}

handle_request-IsAnswered_example : IsAnswered (
    handle_request execute config 5
      (codes "uuid")
      (codes "a@x/y")
      (codes "biboumi.x")
      request
      handler)
handle_request-IsAnswered_example =
    handle_request-IsAnswered execute config 5 (codes "uuid") (codes "a@x/y") (codes "biboumi.x")
      request handler execute-KeepsReferences handler-WellFormed

other_jid : codes "b@x/y" ≢ codes "a@x/y"
other_jid e = ground arith

handle_request-IsSame_example : After (IsSame (codes "uuid", codes "b@x/y") handler) (
    handle_request execute config 5
      (codes "uuid")
      (codes "a@x/y")
      (codes "biboumi.x")
      request
      handler)
handle_request-IsSame_example =
    handle_request-IsSame (codes "uuid", codes "b@x/y") handler execute config 5 (codes "uuid")
      (codes "a@x/y") (codes "biboumi.x") request other_jid

handler-AreTimed : AreTimed 4 handler
unfolding AreTimed lookup
handler-AreTimed key s e = ground arith

handle_request-AreTimed_example : After (AreTimed 4) (
    handle_request execute config 5
      (codes "uuid")
      (codes "a@x/y")
      (codes "biboumi.x")
      request
      handler)
handle_request-AreTimed_example =
    handle_request-AreTimed 4 execute config 5 (codes "uuid") (codes "a@x/y") (codes "biboumi.x")
      request handler refl handler-AreTimed

abbrev socket : Socket
socket = record {
  in_buf = [];
  out_buf = codes "PING a" ∷ [];
  connected = true;
  connecting = false;
  opened = true;
  managed = true;
  watched = true;
  written = [];
}

abbrev ignored : Bytes → Socket → Socket
ignored error s = s

abbrev unparsed : ℕ → Socket → Socket
unparsed n s = s

abbrev traffic : List Event
traffic = takes 2 ∷ sends (codes "PONG") ∷ takes 5 ∷ []

traffic-AreTaken : AreTaken ignored ignored unparsed traffic socket
unfolding AreTaken step on_send raw_send offered flatten remove_sent stop_if_empty
traffic-AreTaken = (omega arith, (omega arith, tt))

run-sent_by_example :
    stream (run ignored ignored unparsed traffic socket)
    ≡ stream socket ++ sent_by ignored ignored unparsed traffic
run-sent_by_example = run-sent_by ignored ignored unparsed traffic socket traffic-AreTaken

-- A kernel that takes one byte at a time.
abbrev one_byte : List Bytes → ℕ
one_byte ss = if length (flatten ss) == 0 then 0 else 1

one_byte-TakesSome : TakesSome one_byte
unfolding TakesSome
one_byte-TakesSome ss = ground arith

socket-IsWatched : IsWatched socket
unfolding IsSome
socket-IsWatched = record { texts = (refl, tt); watching = λ a b. refl }

send_all-has_none_example :
    has_none (send_all ignored ignored unparsed 7 one_byte socket).out_buf ≡ true
unfolding flatten
send_all-has_none_example =
    send_all-has_none ignored ignored unparsed one_byte 7 socket one_byte-TakesSome socket-IsWatched
      (omega arith)

-- A stream with one stanza.
abbrev presence : Doc
presence =
    element (codes "presence") ((codes "to", codes "#a%irc@x") ∷ []) (codes "hi" ∷ []) no_child

run-stream_example :
    let root = set_attributes [] (make_node (codes "stream")) in
    Parser.run
      (start_element (codes "stream") [] ∷ stanzas_events (presence ∷ []) (end_element ∷ []))
      (record { level = 0; open_nodes = []; events = [] })
    ≡ some (record {
      level = 0;
      open_nodes = [];
      events = [] ++ stream_open root ∷ stanza_calls (presence ∷ []) ++ stream_close root ∷ [];
    })
run-stream_example = run-stream (codes "stream") [] (presence ∷ []) []

-- The user bob of a channel, for whom the JID is known.
abbrev gateway : Bytes
gateway = codes "irc.example"

abbrev client_jid : Bytes
client_jid = codes "bob@example/home"

has_status-presences_example :
    All
      (λ p. has_status (codes "110") p ≡ true)
      (user_join_stanza gateway
          (λ jid. jid)
          (codes "#a%irc")
          (codes "bob")
          client_jid
          (codes "member")
          (codes "participant")
          client_jid
          true
        ∷ muc_leave_stanza gateway
            (codes "#a%irc")
            (codes "bob")
            (codes "bye")
            client_jid
            true
            false
            (codes "member")
            (codes "participant")
        ∷ kick_user_stanza gateway
            (codes "#a%irc")
            (codes "bob")
            (codes "bye")
            (codes "al")
            client_jid
            true
        ∷ nick_change_stanzas gateway
            (λ jid. jid)
            (codes "#a%irc")
            (codes "bob")
            (codes "rob")
            (codes "member")
            (codes "participant")
            client_jid
            true)
    × has_status (codes "110") (
        affiliation_role_change_stanza gateway
          (codes "#a%irc")
          (codes "bob")
          (codes "member")
          (codes "participant")
          client_jid)
      ≡ false
has_status-presences_example =
    has_status-presences gateway (λ jid. jid) (codes "#a%irc") (codes "bob") (codes "rob")
      client_jid (codes "bye") (codes "al") (codes "member") (codes "participant") client_jid true
      false
