-- ===== src/Client/Join.antt =====
-- Connecting to the server, and joining the channels when it welcomes us: `start`,
-- `on_connection_failed`, `send_join_command`, `on_welcome_message` and `on_cap` of
-- src/irc/irc_client.cpp.
pub mod Owned
use biboumi.Base.{
  ◌+◌, Bool, true, false, not, ◌||◌, List, [], ◌∷◌, ◌++◌, leb, if◌then◌else◌, Bytes, codes,
  eq_bytes, is_empty, length, contains, set_erase,
}
use biboumi.Irc.Iid.{make_iid}
use biboumi.Utils.Strings.{split}
use biboumi.Bridge.Outgoing.{send_xmpp_message, send_presence_error, is_empty_list}
use biboumi.Client.Send.{send_command}
use biboumi.Client.Texts.{Handler}
use biboumi.World.{World, ok, ◌>>=◌, arg, with_client, emit, irc_connected}

-- `this->connect(address, port, tls)`: the socket is connecting from then on.
unfoldable pub connect : Bytes → Bytes → Bool → World → World
connect address port tls w =
    with_client
      (λ c. record c { active = true; connects = c.connects ++ (address, port, tls) ∷ [] }) w

abbrev set_ports : List (Bytes × Bool) → World → World
set_ports ports w = with_client (λ c. record c { ports_to_try = ports }) w

abbrev try_port : List (Bytes × Bool) → World → World
try_port [] w =
    send_xmpp_message w.client.hostname []
      (codes "Can not connect to IRC server: no port specified.") w
try_port ((port, tls) ∷ ports) w = connect w.client.hostname port tls (
    send_xmpp_message w.client.hostname []
      (codes "Connecting to "
        ++ (w.client.hostname
            ++ (b':'
                ∷ (port
                    ++ (codes " ("
                        ++ ((if tls then codes "encrypted" else codes "not encrypted")
                            ++ codes ")"))))))
      (set_ports ports w))

unfoldable pub start : World → World
unfolding connect
start w = if w.client.active then w else try_port w.client.ports_to_try w

-- An error for each room that the user wanted to join.
unfoldable pub refuse_rooms : Bytes → List (Bytes × Bytes) → World → World
refuse_rooms reason [] w = w
refuse_rooms reason ((chan, key) ∷ rooms) w = refuse_rooms reason rooms (
    send_presence_error
      (make_iid w.bridge.fixed_irc_server (chan ++ (b'%' ∷ w.client.hostname)) w.client.chantypes)
      w.client.current_nick (codes "cancel") (codes "item-not-found") [] reason w)

abbrev set_rooms : List (Bytes × Bytes) → World → World
set_rooms rooms w = with_client (λ c. record c { channels_to_join = rooms }) w

-- The socket has been closed, so it is neither connecting nor connected when this is called.
unfoldable pub on_connection_failed : Bytes → Bool → World → World
unfolding start refuse_rooms
on_connection_failed reason hostname_resolution_failed w =
    let told = send_xmpp_message w.client.hostname [] (codes "Connection failed: " ++ reason) w in
    let left = if hostname_resolution_failed then set_ports [] told else told in
    if is_empty_list left.client.ports_to_try
    then set_rooms [] (refuse_rooms reason left.client.channels_to_join left)
    else start left

abbrev wants : Bytes → List (Bytes × Bytes) → Bool
wants chan [] = false
wants chan ((name, key) ∷ rooms) = eq_bytes name chan || wants chan rooms

unfoldable pub send_join_command : Bytes → Bytes → World → World
unfolding start
send_join_command chan_name password w = start (
    if not w.client.welcomed
    then (if wants chan_name w.client.channels_to_join
        then w
        else set_rooms (w.client.channels_to_join ++ (chan_name, password) ∷ []) w)
    else if is_empty password
    then send_command (codes "JOIN") (chan_name ∷ []) w
    else send_command (codes "JOIN") (chan_name ∷ password ∷ []) w)

-- The lists that the loop of `on_welcome_message` builds.
pub record JoinLists : Type 0 where
  pub channels : Bytes
  pub channels_with_key : Bytes
  pub keys : Bytes

abbrev comma : Bytes → Bytes → Bytes
comma [] item = item
comma (c ∷ s) item = (c ∷ s) ++ (b',' ∷ item)

-- A list of 300 bytes or more is sent before another name is put into it.
unfoldable pub flush_keyed : JoinLists → World → JoinLists × World
unfolding send_join_command
flush_keyed l w =
    if leb 300 (length l.keys + length l.channels_with_key)
    then (
      record l { channels_with_key = []; keys = [] },
      send_join_command l.channels_with_key l.keys w,
    )
    else (l, w)

unfoldable pub flush_plain : JoinLists → World → JoinLists × World
unfolding send_join_command
flush_plain l w =
    if leb 300 (length l.channels)
    then (record l { channels = [] }, send_join_command l.channels [] w)
    else (l, w)

unfoldable pub add_room : Bytes → Bytes → JoinLists → World → JoinLists × World
unfolding flush_keyed flush_plain
add_room chan key l w =
    if is_empty chan
    then (l, w)
    else if not (is_empty key)
    then (let (l', w') = flush_keyed l w in
        (
          record l' {
            keys = comma l'.keys key;
            channels_with_key = comma l'.channels_with_key chan;
          },
          w',
        ))
    else (let (l', w') = flush_plain l w in (record l' { channels = comma l'.channels chan }, w'))

unfoldable pub join_rooms : List (Bytes × Bytes) → JoinLists → World → JoinLists × World
unfolding add_room
join_rooms [] l w = (l, w)
join_rooms ((chan, key) ∷ rooms) l w =
    join_rooms rooms (add_room chan key l w).0 (add_room chan key l w).1

unfoldable pub send_last_joins : JoinLists → World → World
unfolding send_join_command
send_last_joins l w =
    let plain = if is_empty l.channels then w else send_join_command l.channels [] w in
    if is_empty l.channels_with_key
    then plain
    else send_join_command l.channels_with_key l.keys plain

abbrev no_lists : JoinLists
no_lists = record { channels = []; channels_with_key = []; keys = [] }

-- The repeated PING that is installed here is an event of the timer, not of this state.
unfoldable pub on_welcome_message : Handler
unfolding join_rooms send_last_joins
on_welcome_message m w = do
  nick ← arg m 0
  let w' = with_client (λ c. record c { current_nick = nick; welcomed = true }) w
  let (l, joined) = join_rooms w'.client.channels_to_join no_lists w'
  ok (set_rooms [] (send_last_joins l joined))

unfoldable pub cap_end : World → World
cap_end w = emit (irc_connected w.client.hostname) (send_command (codes "CAP") (codes "END" ∷ []) w)

abbrev set_capabilities : List Bytes → World → World
set_capabilities caps w = with_client (λ c. record c { capabilities = caps }) w

-- With no SASL the callbacks of a capability do nothing, so ACK and NACK are the same. A capability
-- that was not asked for, or was handled before, ends the handler.
unfoldable pub drop_capabilities : List Bytes → World → World
unfolding cap_end
drop_capabilities [] w = if is_empty_list w.client.capabilities then cap_end w else w
drop_capabilities (cap ∷ caps) w =
    let rest = drop_capabilities caps (set_capabilities (set_erase cap w.client.capabilities) w) in
    if contains cap w.client.capabilities then rest else w

unfoldable pub on_cap : Handler
unfolding drop_capabilities
on_cap m w = do
  sub_command ← arg m 1
  caps ← arg m 2
  ok (drop_capabilities (split caps b' ' false) w)
