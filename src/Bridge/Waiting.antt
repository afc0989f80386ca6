-- ===== src/Bridge/Waiting.antt =====
-- The requests that wait for an answer of an IRC server, `waiting_irc` of src/bridge/bridge.cpp: a
-- `Responder` is one of the closures that are added there, with what it captures. The client of a
-- closure is the one of the state.
pub mod Answers
pub mod Trigger
use biboumi.Base.{
  ℕ, ◌+◌, ◌-◌, Bool, true, false, not, ◌&&◌, ◌||◌, Option, none, some, List, [], ◌∷◌, ◌++◌, leb,
  if◌then◌else◌, Bytes, codes, eq_bytes, bytes_eq, starts_with, is_empty, length, get_elem?, take,
  drop, lookup, insert,
}
use biboumi.Irc.Iid.{Iid, to_string}
use biboumi.Irc.Message.{IrcMessage}
use biboumi.Irc.User.{nick_of}
use biboumi.Utils.Strings.{tolower}
use biboumi.Bridge.Outgoing.{fixed, percent_host}
use biboumi.Bridge.ChannelList.{
  ListElement, ChannelList, ResultSetInfo, Page, not_yet, range, bad_range, matching_page,
  room_list_result,
}
use biboumi.World.{
  World, Outcome, ok, fault, out_of_bounds, ◌>>=◌, emit, XmppCall, stanza_error, iq_result,
  iq_result_full_jid, version_result, stanza,
}

pub data Responder : Type 0 where
  role_change : Iid → (from nick id : Bytes) → Responder
  kick_answer : (target iq_id to_jid : Bytes) → Iid → Responder
  ping_answer : (nick iq_id to_jid irc_hostname from_jid : Bytes) → Responder
  version_answer : (target iq_id to_jid irc_hostname from_jid : Bytes) → Responder
  fill_list : Iid → Responder
  list_answer : Iid → (iq_id to_jid : Bytes) → ResultSetInfo → Responder

pub record Waiting : Type 0 where
  pub world : World
  pub waiting_irc : List Responder
  pub channel_list_cache : List (Bytes × ChannelList)

abbrev pub in_world : (World → World) → Waiting → Waiting
in_world f s = record s { world = f s.world }

-- Whether the closure is done, with the state.
abbrev pub Answer : Type 0
Answer = Outcome (Waiting × Bool)

abbrev pub wait : Waiting → Answer
wait s = ok (s, false)

abbrev pub reply : XmppCall → Waiting → Answer
reply call s = ok (in_world (emit call) s, true)

abbrev pub iid_text : Iid → Waiting → Bytes
iid_text iid s = to_string (fixed s.world) iid

-- `message.arguments[i]`, where the size was tested.
abbrev arg_at : ℕ → IrcMessage → Bytes
arg_at i m = elim (get_elem? m.arguments i) [ none ↦ [] | some a ↦ a ]

abbrev has_args : ℕ → IrcMessage → Bool
has_args n m = leb n (length m.arguments)

abbrev is_command : Bytes → ℕ → IrcMessage → Bool
is_command name n m = eq_bytes m.command name && has_args n m

-- The text of an error reply, where it has one.
abbrev error_text : Bytes → IrcMessage → Bytes
error_text default m = if has_args 3 m then arg_at 2 m else default

abbrev pub iq_error : Bytes → Bytes → Bytes → Bytes → Bytes → Bool → XmppCall
iq_error to from id condition text fulljid =
    stanza_error (codes "iq") to from id (codes "cancel") condition text fulljid

unfoldable pub on_role_change : Iid → Bytes → Bytes → Bytes → Bytes → IrcMessage → Waiting → Answer
on_role_change iid from nick id irc_hostname m s =
    if not (eq_bytes irc_hostname iid.server_name)
    then wait s
    else if is_command (codes "MODE") 2 m
    then (if not (eq_bytes (arg_at 0 m) iid.local)
          || not (eq_bytes s.world.client.current_nick (nick_of m.prefix))
        then wait s
        else reply (iq_result id from (iid_text iid s)) s)
    else if is_command (codes "401") 2 m
    then (if not (eq_bytes (arg_at 1 m) nick)
        then wait s
        else reply
            (iq_error from (iid_text iid s) id (codes "item-not-found")
              (error_text (codes "No such nick") m) false)
            s)
    else if is_command (codes "482") 2 m
    then (if not (eq_bytes (tolower (arg_at 1 m)) iid.local)
        then wait s
        else reply
            (iq_error from (iid_text iid s) id (codes "not-allowed")
              (error_text (codes "You're not channel operator") m) false)
            s)
    else if is_command (codes "472") 2 m
    then reply
        (iq_error from (iid_text iid s) id (codes "not-allowed")
          (error_text (codes "Unknown mode: " ++ arg_at 1 m) m) false)
        s
    else ok (s, true)

unfoldable pub on_kick_answer : Bytes → Bytes → Bytes → Iid → Bytes → IrcMessage → Waiting → Answer
on_kick_answer target iq_id to_jid iid irc_hostname m s =
    if not (eq_bytes irc_hostname iid.server_name)
    then wait s
    else if is_command (codes "KICK") 2 m
    then (if not (eq_bytes (arg_at 1 m) target) || not (eq_bytes (tolower (arg_at 0 m)) iid.local)
        then wait s
        else reply (iq_result iq_id to_jid (iid_text iid s)) s)
    else if is_command (codes "401") 2 m
    then (if not (eq_bytes (arg_at 1 m) target)
        then wait s
        else reply
            (iq_error to_jid (iid_text iid s) iq_id (codes "item-not-found")
              (error_text (codes "No such nick") m) false)
            s)
    else if is_command (codes "482") 2 m
    then (if not (eq_bytes (tolower (arg_at 1 m)) iid.local)
        then wait s
        else reply
            (iq_error to_jid (iid_text iid s) iq_id (codes "not-allowed")
              (error_text (codes "You're not channel operator") m) false)
            s)
    else ok (s, true)

-- A CTCP reply without its name and its delimiters: `substr(n, size() - n - 1)`.
abbrev ctcp_text : ℕ → Bytes → Bytes
ctcp_text n body = take (length body - (n + 1)) (drop n body)

unfoldable pub on_ping_answer :
    Bytes → Bytes → Bytes → Bytes → Bytes → Bytes → IrcMessage → Waiting → Answer
on_ping_answer nick iq_id to_jid irc_hostname from_jid hostname m s =
    if not (eq_bytes irc_hostname hostname) || not (has_args 2 m)
    then wait s
    else if eq_bytes m.command (codes "NOTICE")
        && eq_bytes (tolower (nick_of m.prefix)) nick
        && starts_with (codes "\u{1}PING ") (arg_at 1 m)
    then (if not (eq_bytes (ctcp_text 6 (arg_at 1 m)) iq_id)
        then wait s
        else reply (iq_result_full_jid iq_id to_jid from_jid) s)
    else if eq_bytes m.command (codes "401") && eq_bytes (arg_at 1 m) nick
    then reply
        (iq_error to_jid from_jid iq_id (codes "service-unavailable")
          (error_text (codes "No such nick") m) true)
        s
    else wait s

unfoldable pub on_version_answer :
    Bytes → Bytes → Bytes → Bytes → Bytes → Bytes → IrcMessage → Waiting → Answer
on_version_answer target iq_id to_jid irc_hostname from_jid hostname m s =
    if not (eq_bytes irc_hostname hostname)
    then wait s
    else if eq_bytes m.command (codes "NOTICE")
        && eq_bytes (tolower (nick_of m.prefix)) (tolower target)
        && has_args 2 m
        && starts_with (codes "\u{1}VERSION ") (arg_at 1 m)
    then reply (version_result iq_id to_jid from_jid (ctcp_text 9 (arg_at 1 m))) s
    else if eq_bytes m.command (codes "401") && has_args 2 m && eq_bytes (arg_at 1 m) target
    then reply
        (iq_error to_jid from_jid iq_id (codes "item-not-found")
          (error_text (codes "No such nick") m) true)
        s
    else wait s

-- `channel_list_cache[server]`, which is complete and empty where there is no entry.
unfoldable pub cached_list : Bytes → Waiting → ChannelList
cached_list server s = elim (lookup server s.channel_list_cache) [
  | none ↦ record { complete = true; channels = [] }
  | some list ↦ list
]

unfoldable pub put_list : Bytes → ChannelList → Waiting → Waiting
put_list server list s = record s { channel_list_cache = insert server list s.channel_list_cache }

-- A reply that ends a list before its end.
unfoldable pub is_list_error : IrcMessage → Bool
is_list_error m =
    eq_bytes m.command (codes "263")
    || eq_bytes m.command (codes "RPL_TRYAGAIN")
    || eq_bytes m.command (codes "ERR_TOOMANYMATCHES")
    || eq_bytes m.command (codes "ERR_NOSUCHSERVER")

unfoldable pub is_list_element : IrcMessage → Bool
is_list_element m = eq_bytes m.command (codes "322") || eq_bytes m.command (codes "RPL_LIST")

unfoldable pub is_list_end : IrcMessage → Bool
is_list_end m = eq_bytes m.command (codes "323") || eq_bytes m.command (codes "RPL_LISTEND")

-- An element has four arguments.
abbrev pub added_element : World → Bytes → List Bytes → ChannelList → ChannelList
added_element w server (a ∷ chan ∷ nb_users ∷ topic ∷ []) list = record list {
  channels =
      list.channels
      ++ record { channel = chan ++ percent_host w server; nb_users = nb_users; topic = topic }
        ∷ [];
}
added_element w server args list = list

unfoldable pub on_fill_list : Iid → Bytes → IrcMessage → Waiting → Answer
unfolding cached_list put_list is_list_error is_list_element is_list_end
on_fill_list iid irc_hostname m s =
    let list = cached_list iid.server_name s in
    let finished = put_list iid.server_name (record list { complete = true }) s in
    if not (eq_bytes irc_hostname iid.server_name)
    then wait s
    else if is_list_error m
    then ok (finished, true)
    else if is_list_element m
    then wait (put_list iid.server_name (added_element s.world iid.server_name m.arguments list) s)
    else if is_list_end m
    then ok (finished, true)
    else wait s

-- `send_matching_channel_list`: whether there was a page to send.
unfoldable pub send_page :
    Page → ChannelList → ResultSetInfo → Bytes → Bytes → Bytes → Waiting → Answer
unfolding room_list_result
send_page not_yet list rs id to_jid from s = wait s
send_page bad_range list rs id to_jid from s = fault out_of_bounds
send_page (range begin end) list rs id to_jid from s =
    reply
      (stanza (room_list_result s.world.bridge.served_hostname id to_jid from list begin end rs)) s

unfoldable pub send_matching_channel_list :
    ChannelList → ResultSetInfo → Bytes → Bytes → Bytes → Waiting → Answer
unfolding send_page matching_page
send_matching_channel_list list rs id to_jid from s =
    send_page (matching_page s.world.bridge.served_hostname list rs) list rs id to_jid from s

-- A call whose result is not used.
abbrev pub and_done : Answer → Answer
and_done a = a >>= λ r. ok (r.0, true)

unfoldable pub on_list_answer :
    Iid → Bytes → Bytes → ResultSetInfo → Bytes → IrcMessage → Waiting → Answer
unfolding cached_list send_matching_channel_list is_list_error is_list_element is_list_end
on_list_answer iid iq_id to_jid rs irc_hostname m s =
    let list = cached_list iid.server_name s in
    if not (eq_bytes irc_hostname iid.server_name)
    then wait s
    else if is_list_error m
    then reply
        (stanza_error (codes "iq") to_jid (iid_text iid s) iq_id (codes "wait")
          (codes "service-unavailable") (if has_args 2 m then arg_at 1 m else []) false)
        s
    else if is_list_element m
    then send_matching_channel_list list rs iq_id to_jid (iid_text iid s) s
    else if is_list_end m
    then and_done (send_matching_channel_list list rs iq_id to_jid (iid_text iid s) s)
    else wait s

unfoldable pub respond : Responder → Bytes → IrcMessage → Waiting → Answer
unfolding on_role_change on_kick_answer on_ping_answer on_version_answer on_fill_list on_list_answer
respond (role_change iid from nick id) irc_hostname m s =
    on_role_change iid from nick id irc_hostname m s
respond (kick_answer target iq_id to_jid iid) irc_hostname m s =
    on_kick_answer target iq_id to_jid iid irc_hostname m s
respond (ping_answer nick iq_id to_jid irc from_jid) irc_hostname m s =
    on_ping_answer nick iq_id to_jid irc from_jid irc_hostname m s
respond (version_answer target iq_id to_jid irc from_jid) irc_hostname m s =
    on_version_answer target iq_id to_jid irc from_jid irc_hostname m s
respond (fill_list iid) irc_hostname m s = on_fill_list iid irc_hostname m s
respond (list_answer iid iq_id to_jid rs) irc_hostname m s =
    on_list_answer iid iq_id to_jid rs irc_hostname m s

-- `add_waiting_irc`
unfoldable pub add_waiting_irc : Responder → Waiting → Waiting
add_waiting_irc r s = record s { waiting_irc = s.waiting_irc ++ r ∷ [] }

-- The closures that are still waiting after a message.
unfoldable pub trigger :
    List Responder → Bytes → IrcMessage → Waiting → Outcome (List Responder × Waiting)
unfolding respond
trigger [] irc_hostname m s = ok ([], s)
trigger (r ∷ rs) irc_hostname m s = respond r irc_hostname m s >>= λ (s', is_done).
    trigger rs irc_hostname m s' >>= λ (rest, s''). ok (if is_done then rest else r ∷ rest, s'')

unfoldable pub trigger_on_irc_message : Bytes → IrcMessage → Waiting → Outcome Waiting
unfolding trigger
trigger_on_irc_message irc_hostname m s =
    trigger s.waiting_irc irc_hostname m s >>= λ (rest, s'). ok (record s' { waiting_irc = rest })
