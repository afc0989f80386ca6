-- ===== src/Bridge/Requests.antt =====
-- The requests of the XMPP side, in src/bridge/bridge.cpp. The bridge has the client of one server:
-- for another server `get_irc_client` throws. `uuid` is `gen_uuid`, by the number of its call.
pub mod Leaving
pub mod Modes
use biboumi.Base.{
  ℕ, zero, suc, ◌+◌, ◌-◌, Bool, true, false, not, ◌&&◌, ◌||◌, Option, none, some, List, [], ◌∷◌,
  ◌++◌, map, ◌==◌, if◌then◌else◌, Bytes, codes, eq_bytes, has_char, is_empty, starts_with, length,
  drop,
}
use biboumi.Irc.Iid.{
  Iid, IidType, user, to_string, to_tuple, make_iid, set_local, set_server, empty_iid,
}
use biboumi.Irc.User.{IrcUser, get_most_significant_mode}
use biboumi.Irc.Channel.{IrcChannel, find_user, get_self}
use biboumi.Utils.Strings.{split, tolower, revstr}
use biboumi.Utils.Encoding.{encode}
use biboumi.Bridge.Resources.{
  resources_of_chan, add_resource_to_chan, remove_resource_from_chan, is_resource_in_chan,
  add_resource_to_server, remove_resource_from_server, number_of_resources_in_chan,
  number_of_channels_the_resource_is_in,
}
use biboumi.Bridge.ChannelList.{ResultSetInfo, ChannelList, print_number}
use biboumi.Bridge.Outgoing.{fixed, percent_host, emit_all, join_call, send_muc_leave_to}
use biboumi.Bridge.Waiting.{
  Waiting, in_world, add_waiting_irc, role_change, kick_answer, ping_answer, version_answer,
  fill_list, list_answer, cached_list, put_list, send_matching_channel_list, Answer,
}
use biboumi.Client.Channels.{get_channel, is_channel_joined}
use biboumi.Client.Join.{send_join_command}
use biboumi.Client.Messages.{send_channel_message, send_private_message}
use biboumi.Client.Send.{
  full_jid, send_raw, send_nick_command, send_kick_command, send_list_command, send_invitation,
  send_topic_command, send_part_command, send_mode_command,
}
use biboumi.Xmpp.Jid.{Jid, to_jid, full}
use biboumi.Xmpp.Node.{make_node, set_attribute}
use biboumi.World.{
  World, IrcClient, MessageCallback, mirror_to_all_resources, Outcome, ok, thrown, fault,
  null_pointer, ◌>>=◌, or_fault, with_bridge, emit, XmppCall, stanza_error, iq_result, topic_of,
  stanza,
}

-- `IRCNotConnected` is thrown where there is no client of the server.
abbrev with_irc : {A : Type 0} → Bytes → World → (World → Outcome A) → Outcome A
with_irc server w f = if eq_bytes server w.client.hostname then f w else thrown w

abbrev iid_text : Iid → World → Bytes
iid_text iid w = to_string (fixed w) iid

-- `generate_channel_join_for_resource`; without a database there is no history to send.
abbrev most_significant : World → IrcUser → ℕ
most_significant w u = get_most_significant_mode u w.client.sorted_user_modes

unfoldable pub join_others : Iid → Bytes → Bytes → List IrcUser → World → World
unfolding join_call
join_others iid own_nick to [] w = w
join_others iid own_nick to (u ∷ us) w =
    let rest = join_others iid own_nick to us in
    let told =
      emit (join_call w iid.server_name (encode iid.local) u (most_significant w u) false to) w in
    if eq_bytes u.nick own_nick then rest w else rest told

unfoldable pub generate_channel_join_for_resource : Iid → Bytes → World → Outcome World
unfolding join_others
generate_channel_join_for_resource iid resource w =
    let (chan, w') = get_channel iid.local w in
    let to = full_jid w.bridge resource in
    or_fault null_pointer (get_self chan) >>= λ self.
    let told = join_others iid self.nick to chan.users w' in
    let joined =
      emit
        (join_call told iid.server_name (encode iid.local) self (most_significant told self) true
          to)
        told in
    ok (
      emit
        (topic_of (encode (encode iid.local) ++ percent_host w iid.server_name) chan.topic to
          chan.topic_author)
        joined)

-- `join_irc_channel`, of a server that has its client: whether a JOIN was sent.
unfoldable pub join_irc_channel : Iid → Bytes → Bytes → World → Outcome (World × Bool)
unfolding generate_channel_join_for_resource
join_irc_channel iid password resource w =
    let b = add_resource_to_server iid.server_name resource w.bridge in
    let b' =
      if is_resource_in_chan (to_tuple iid) resource b
      then b
      else add_resource_to_chan (to_tuple iid) resource b in
    let (joined, w') = is_channel_joined iid.local (record w { bridge = b' }) in
    if joined
    then (generate_channel_join_for_resource iid resource w' >>= λ w''. ok (w'', false))
    else ok (send_join_command iid.local password w', true)

abbrev not_a_channel : Iid → World → Bytes → XmppCall
not_a_channel iid w to =
    stanza_error (codes "message") to (iid_text iid w) [] (codes "cancel")
      (codes "remote-server-not-found")
      (iid_text iid w
        ++ codes
            " is not a valid channel name. A correct room jid is of the form: #<chan>%<server>")
      false

-- `/me text` is an action.
unfoldable pub action_text : Bytes → Bytes
action_text line =
    if starts_with (codes "/me ") line then codes "\u{1}ACTION " ++ drop 4 line ++ 1 ∷ [] else line

-- The loop over the lines; `none` is the loop of `cut` that does not end. Each line takes a call of
-- `gen_uuid`, but the first one that is a text has the id that is given, if there is one.
unfoldable pub send_message_lines :
    (ℕ → Bytes) → Iid → Bytes → Bool → ℕ → List Bytes → World → Option World
unfolding action_text
send_message_lines uuid iid id first k [] w = some w
send_message_lines uuid iid id first k (line ∷ lines) w =
    let named = first && not (is_empty id) in
    let id' = if named then id else uuid k in
    let k' = if named then k else suc k in
    if starts_with (codes "/mode") line
    then send_message_lines uuid iid id' first k' lines
        (send_mode_command iid.local (split (drop 5 line) b' ' false) w)
    else elim (send_channel_message iid.local (action_text line) (mirror_to_all_resources iid id')
        w) [ none ↦ none | some (w', sent) ↦ send_message_lines uuid iid id' false k' lines w' ]

unfoldable pub bridge_channel_message :
    (ℕ → Bytes) → Iid → Bytes → Bytes → World → Outcome (Option World)
unfolding send_message_lines
bridge_channel_message uuid iid body id w =
    if is_empty iid.server_name
    then ok (some (emit_all (not_a_channel iid w) (resources_of_chan (to_tuple iid) w.bridge) w))
    else with_irc iid.server_name w
        (λ w. ok (send_message_lines uuid iid id true 0 (split body b'\n' true) w))

unfoldable pub private_lines : Bytes → Bytes → List Bytes → World → World
unfolding action_text
private_lines local type [] w = w
private_lines local type (line ∷ lines) w =
    private_lines local type lines (send_private_message local (action_text line) type w)

unfoldable pub bridge_private_message : Iid → Bytes → Bytes → World → Outcome World
unfolding private_lines
bridge_private_message iid body type w =
    if is_empty iid.local || is_empty iid.server_name
    then ok (emit (not_a_channel iid w w.bridge.user_jid) w)
    else with_irc iid.server_name w
        (λ w. ok (private_lines iid.local type (split body b'\n' true) w))

unfoldable pub send_raw_message : Bytes → Bytes → World → Outcome World
send_raw_message hostname body w = with_irc hostname w (λ w. ok (send_raw body w))

abbrev pub resources_left : ℕ → Bytes
resources_left n =
    codes "Biboumi note: " ++ print_number (n - 1) ++ codes " resources are still in this channel."

-- The last resource of a channel sends a PART, if none was sent.
unfoldable pub leave_last : Iid → Bytes → Bytes → IrcChannel → World → Outcome World
leave_last iid status_message resource chan w =
    if chan.joined && not chan.parting
    then ok (send_part_command iid.local status_message w)
    else if chan.joined
    then (or_fault null_pointer (get_self chan) >>= λ self.
        ok (send_muc_leave_to iid self [] true true resource w))
    else ok w

-- A resource that is not the last one is taken out of the channel.
unfoldable pub leave_one : Iid → Bytes → IrcChannel → ℕ → World → Outcome World
leave_one iid resource chan n w =
    let gone = with_bridge (remove_resource_from_chan (to_tuple iid) resource) in
    if chan.joined
    then (or_fault null_pointer (get_self chan) >>= λ self.
        ok (gone (send_muc_leave_to iid self (resources_left n) true true resource w)))
    else ok (gone w)

unfoldable pub leave_chan : Iid → Bytes → Bytes → IrcChannel → World → Outcome World
unfolding leave_last leave_one
leave_chan iid status_message resource chan w =
    let n = number_of_resources_in_chan (to_tuple iid) w.bridge in
    if n == 1
    then leave_last iid status_message resource chan w
    else leave_one iid resource chan n w

-- A resource that is in no channel of the server leaves the server.
unfoldable pub leave_server : Bytes → Bytes → World → World
leave_server server resource w =
    if number_of_channels_the_resource_is_in server resource w.bridge == 0
    then with_bridge (remove_resource_from_server server resource) w
    else w

unfoldable pub leave_irc_channel : Iid → Bytes → Bytes → World → Outcome World
unfolding leave_chan leave_server
leave_irc_channel iid status_message resource w = with_irc iid.server_name w (λ w.
    if is_resource_in_chan (to_tuple iid) resource w.bridge
    then (let (chan, w') = get_channel iid.local w in
        leave_chan iid status_message resource chan w' >>= λ w''.
        ok (leave_server iid.server_name resource w''))
    else ok w)

unfoldable pub send_irc_nick_change : Iid → Bytes → Bytes → World → Outcome World
send_irc_nick_change iid new_nick requesting_resource w =
    if is_resource_in_chan (to_tuple iid) requesting_resource w.bridge
    then with_irc iid.server_name w (λ w. ok (send_nick_command new_nick w))
    else ok w

-- The modes that an affiliation or a role gives, how often the nick is repeated for them, and the
-- superior modes.
unfoldable pub wanted_modes : Bytes → Bytes → Option (Bytes × ℕ × Bytes)
wanted_modes affiliation role =
    if eq_bytes affiliation (codes "none")
    then some ([], 0, codes "vhoaq")
    else if eq_bytes affiliation (codes "member")
    then some (codes "+v", 1, codes "hoaq")
    else if eq_bytes role (codes "moderator")
    then some (codes "+h", 1, codes "oaq")
    else if eq_bytes affiliation (codes "admin")
    then some (codes "+o", 1, codes "aq")
    else if eq_bytes affiliation (codes "owner")
    then some (codes "+a", 1, codes "q")
    else none

unfoldable pub remove_modes : Bytes → List ℕ → Bytes × ℕ → Bytes × ℕ
remove_modes [] has acc = acc
remove_modes (mode ∷ to_remove) has (modes, nb) =
    remove_modes to_remove has
      (if has_char mode has then (modes ++ b'-' ∷ mode ∷ [], suc nb) else (modes, nb))

unfoldable pub repeat_nick : ℕ → Bytes → List Bytes
repeat_nick zero nick = []
repeat_nick (suc n) nick = nick ∷ repeat_nick n nick

abbrev send_modes : Iid → Bytes → Bytes → Bytes → Bytes × ℕ → Waiting → Waiting
send_modes iid from nick id (modes, nb) s =
    if is_empty modes
    then s
    else add_waiting_irc (role_change iid from nick id)
        (in_world (send_mode_command iid.local (modes ∷ repeat_nick nb nick)) s)

unfoldable pub change_modes :
    Iid → Bytes → Bytes → Bytes → List ℕ → Option (Bytes × ℕ × Bytes) → Waiting → Waiting
unfolding remove_modes repeat_nick
change_modes iid from nick id has none s = s
change_modes iid from nick id has (some (modes, nb, to_remove)) s =
    send_modes iid from nick id (remove_modes to_remove has (modes, nb)) s

-- `with_irc` for a request that may wait.
abbrev with_client_of : {A : Type 0} → Bytes → Waiting → (Waiting → Outcome A) → Outcome A
with_client_of server s f = if eq_bytes server s.world.client.hostname then f s else thrown s.world

unfoldable pub forward_affiliation_role_change :
    Iid → Bytes → Bytes → Bytes → Bytes → Bytes → Waiting → Outcome Waiting
unfolding wanted_modes change_modes
forward_affiliation_role_change iid from nick affiliation role id s =
    with_client_of iid.server_name s (λ s.
      let (chan, w') = get_channel iid.local s.world in
      let s' = record s { world = w' } in
      if chan.joined
      then elim (find_user nick chan) [
        | none ↦ ok (
            in_world
              (emit (
                stanza_error (codes "iq") from (iid_text iid w') id (codes "cancel")
                  (codes "item-not-found") (codes "no such nick") false))
              s')
        | some u ↦ ok (change_modes iid from nick id u.modes (wanted_modes affiliation role) s')
      ]
      else ok s')

unfoldable pub send_irc_kick : Iid → Bytes → Bytes → Bytes → Bytes → Waiting → Outcome Waiting
send_irc_kick iid target reason iq_id to_jid s = with_client_of iid.server_name s (λ s. ok (
    add_waiting_irc (kick_answer target iq_id to_jid iid)
      (in_world (send_kick_command iid.local target reason) s)))

-- Every newline becomes a space.
unfoldable pub one_line : Bytes → Bytes
one_line subject = map (λ c. if c == b'\n' then b' ' else c) subject

unfoldable pub set_channel_topic : Iid → Bytes → World → Outcome World
unfolding one_line
set_channel_topic iid subject w =
    with_irc iid.server_name w (λ w. ok (send_topic_command iid.local (one_line subject) w))

unfoldable pub send_xmpp_version_to_irc : Iid → Bytes → Bytes → Bytes → World → Outcome World
unfolding bridge_private_message
send_xmpp_version_to_irc iid name version os w =
    bridge_private_message iid
      (codes "\u{1}VERSION " ++ name ++ b' ' ∷ version ++ b' ' ∷ os ++ 1 ∷ []) (codes "NOTICE") w

unfoldable pub send_irc_ping_result : Iid → Bytes → World → Outcome World
unfolding bridge_private_message
send_irc_ping_result iid id w =
    bridge_private_message iid (codes "\u{1}PING " ++ revstr id ++ 1 ∷ []) (codes "NOTICE") w

-- `Iid(nick, irc_hostname, Iid::Type::User)`
abbrev user_iid : Bytes → Bytes → Iid
user_iid nick hostname = record (set_server hostname (set_local nick empty_iid)) { type = user }

abbrev in_world_or_throw : Outcome World → Waiting → Outcome Waiting
in_world_or_throw r s = r >>= λ w. ok (record s { world = w })

unfoldable pub send_irc_user_ping_request :
    Bytes → Bytes → Bytes → Bytes → Bytes → Waiting → Outcome Waiting
unfolding bridge_private_message
send_irc_user_ping_request irc_hostname nick iq_id to_jid_ from_jid s =
    in_world_or_throw
      (bridge_private_message (user_iid nick irc_hostname) (codes "\u{1}PING " ++ iq_id ++ 1 ∷ [])
        (codes "PRIVMSG") s.world)
      s
    >>= λ s'.
        ok (add_waiting_irc (ping_answer (tolower nick) iq_id to_jid_ irc_hostname from_jid) s')

unfoldable pub send_irc_version_request :
    Bytes → Bytes → Bytes → Bytes → Bytes → Waiting → Outcome Waiting
unfolding bridge_private_message
send_irc_version_request irc_hostname target iq_id to_jid_ from_jid s =
    in_world_or_throw
      (bridge_private_message (user_iid target irc_hostname) (codes "\u{1}VERSION\u{1}")
        (codes "PRIVMSG") s.world)
      s
    >>= λ s'. ok (add_waiting_irc (version_answer target iq_id to_jid_ irc_hostname from_jid) s')

-- The answer to a user who pings the own nick in a room.
abbrev self_ping : Iid → Bytes → Bytes → Bytes → Bytes → World → XmppCall
self_ping iid nick iq_id to_jid_ from_jid w =
    let from = full (record (to_jid from_jid) { local = iid_text iid w; resource = nick }) in
    stanza (
      set_attribute (codes "type") (codes "result") (
        set_attribute (codes "id") iq_id (
          set_attribute (codes "to") to_jid_
            (set_attribute (codes "from") from (make_node (codes "iq"))))))

abbrev ping_error : Bytes → Bytes → Bytes → Bytes → Bytes → XmppCall
ping_error to_jid_ from_jid iq_id condition text =
    stanza_error (codes "iq") to_jid_ from_jid iq_id (codes "cancel") condition text true

unfoldable pub ping_in_room :
    Iid → Bytes → Bytes → Bytes → Bytes → IrcChannel → IrcUser → Waiting → Outcome Waiting
unfolding send_irc_user_ping_request
ping_in_room iid nick iq_id to_jid_ from_jid chan self s =
    if eq_bytes self.nick nick
    then ok (in_world (λ w. emit (self_ping iid nick iq_id to_jid_ from_jid w) w) s)
    else elim (find_user nick chan) [
      | none ↦ ok (
          in_world
            (emit (
              ping_error to_jid_ from_jid iq_id (codes "item-not-found")
                (codes "Recipient not in room")))
            s)
      | some u ↦ send_irc_user_ping_request iid.server_name nick iq_id to_jid_ from_jid s
    ]

unfoldable pub send_irc_participant_ping_request :
    Iid → Bytes → Bytes → Bytes → Bytes → Waiting → Outcome Waiting
unfolding ping_in_room
send_irc_participant_ping_request iid nick iq_id to_jid_ from_jid s =
    with_client_of iid.server_name s (λ s.
      let (chan, w') = get_channel iid.local s.world in
      let s' = record s { world = w' } in
      if chan.joined && is_resource_in_chan (to_tuple iid) (to_jid to_jid_).resource s.world.bridge
      then (or_fault null_pointer (get_self chan) >>= λ self.
          ping_in_room iid nick iq_id to_jid_ from_jid chan self s')
      else ok (in_world (emit (ping_error to_jid_ from_jid iq_id (codes "not-acceptable") [])) s'))

unfoldable pub on_gateway_ping : Bytes → Bytes → Bytes → Bytes → World → World
on_gateway_ping irc_hostname iq_id to_jid_ from_jid w =
    if is_empty irc_hostname || eq_bytes irc_hostname w.client.hostname
    then emit (iq_result iq_id to_jid_ (to_jid from_jid).local) w
    else emit (ping_error to_jid_ from_jid iq_id (codes "service-unavailable") []) w

-- The nick that an invitation is for: of a JID with a resource, of one with an IID, or a nick.
unfoldable pub invited_nick : Bytes → Bytes → Bytes
invited_nick fixed_server to =
    let jid = to_jid to in
    if not (is_empty jid.resource)
    then jid.resource
    else if not (is_empty jid.local)
    then (make_iid fixed_server jid.local []).local
    else to

unfoldable pub send_irc_invitation : Iid → Bytes → World → Outcome World
unfolding invited_nick
send_irc_invitation iid to w =
    with_irc iid.server_name w (λ w. ok (send_invitation iid.local (invited_nick (fixed w) to) w))

-- A new list is asked for when the one that is there is complete, and no page of it is asked for.
unfoldable pub refresh_list : Iid → ResultSetInfo → Waiting → Outcome Waiting
refresh_list iid rs s =
    let list = cached_list iid.server_name s in
    if list.complete && (length list.channels == 0 || (is_empty rs.after && is_empty rs.before))
    then with_client_of iid.server_name s (λ s. ok (
        add_waiting_irc (fill_list iid) (
          put_list iid.server_name (record { complete = false; channels = [] })
            (in_world send_list_command s))))
    else ok s

unfoldable pub send_irc_channel_list_request :
    Iid → Bytes → Bytes → ResultSetInfo → Waiting → Outcome Waiting
unfolding refresh_list
send_irc_channel_list_request iid iq_id to_jid_ rs s = refresh_list iid rs s >>= λ s'.
    if (cached_list iid.server_name s').complete
    then (send_matching_channel_list (cached_list iid.server_name s') rs iq_id to_jid_
          (iid_text iid s'.world) s'
        >>= λ r. ok r.0)
    else ok (add_waiting_irc (list_answer iid iq_id to_jid_ rs) s')
