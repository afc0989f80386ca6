-- ===== src/Client/Join/Owned.antt =====
-- The handlers of the welcome and of the capabilities, and the ownership of the channels.
use biboumi.Base.{
  ◌+◌, Bool, true, not, List, [], ◌∷◌, Bytes, codes, leb, length, is_empty, contains,
}
use biboumi.Irc.Message.{IrcMessage}
use biboumi.Client.Send.{send_command, command}
use biboumi.Client.Frame.{channels-send_irc_message}
use biboumi.Client.Membership.Owned.{Owned, Keeps, Keeps-arg, if-keeps, Owned-if, frame-Owned}
use biboumi.Client.Texts.Owned.{send_xmpp_message-Owned}
use biboumi.Bridge.Outgoing.{is_empty_list}
use biboumi.Client.Join.{
  connect, set_ports, try_port, start, wants, send_join_command, JoinLists, flush_keyed,
  flush_plain, add_room, join_rooms, send_last_joins, no_lists, on_welcome_message, cap_end,
  drop_capabilities, on_cap,
}
use biboumi.World.{no_callback, World, with_client}

pub send_command-Owned :
    (name : Bytes) (args : List Bytes) (w : World) → Owned w → Owned (send_command name args w)
send_command-Owned name args w o =
    frame-Owned w _ (channels-send_irc_message (command name args) no_callback true w) o

try_port-Owned : (ports : List (Bytes × Bool)) (w : World) → Owned w → Owned (try_port ports w)
unfolding connect
try_port-Owned [] w o = send_xmpp_message-Owned _ _ _ w o
try_port-Owned ((port, tls) ∷ ports) w o = record {
  all = (send_xmpp_message-Owned _ _ _ (set_ports ports w) (record { all = o.all })).all;
}

start-Owned : (w : World) → Owned w → Owned (start w)
unfolding start
start-Owned w o = Owned-if w.client.active o (try_port-Owned w.client.ports_to_try w o)

send_join_command-Owned :
    (chan keys : Bytes) (w : World) → Owned w → Owned (send_join_command chan keys w)
unfolding send_join_command
send_join_command-Owned chan keys w o = start-Owned _ (
    Owned-if (not w.client.welcomed)
      (Owned-if (wants chan w.client.channels_to_join) o (record { all = o.all }))
      (Owned-if (is_empty keys) (send_command-Owned _ _ w o) (send_command-Owned _ _ w o)))

add_room-Owned :
    (chan key : Bytes) (l : JoinLists) (w : World) → Owned w → Owned (add_room chan key l w).1
unfolding add_room flush_keyed flush_plain
add_room-Owned chan key l w o =
    let P = λ (r : JoinLists × World). Owned r.1 in
    if-keeps (is_empty chan) P o (
      if-keeps (not (is_empty key)) P
        (if-keeps (leb 300 (length l.keys + length l.channels_with_key)) P
          (send_join_command-Owned _ _ w o) o)
        (if-keeps (leb 300 (length l.channels)) P (send_join_command-Owned _ _ w o) o))

join_rooms-Owned :
    (rooms : List (Bytes × Bytes)) (l : JoinLists) (w : World)
    → Owned w
    → Owned (join_rooms rooms l w).1
unfolding join_rooms
join_rooms-Owned [] l w o = o
join_rooms-Owned ((chan, key) ∷ rooms) l w o =
    join_rooms-Owned rooms _ _ (add_room-Owned chan key l w o)

send_last_joins-Owned : (l : JoinLists) (w : World) → Owned w → Owned (send_last_joins l w)
unfolding send_last_joins
send_last_joins-Owned l w o =
    let plain = Owned-if (is_empty l.channels) o (send_join_command-Owned l.channels [] w o) in
    Owned-if (is_empty l.channels_with_key) plain (send_join_command-Owned _ _ _ plain)

pub on_welcome_message-Owned :
    (m : IrcMessage) (w : World) → Owned w → Keeps Owned (on_welcome_message m w)
unfolding on_welcome_message
on_welcome_message-Owned m w o = Keeps-arg Owned m 0 _ λ nick.
    let w' = with_client (λ c. record c { current_nick = nick; welcomed = true }) w in
    let (l, joined) = join_rooms w'.client.channels_to_join no_lists w' in
    let kept = join_rooms-Owned w'.client.channels_to_join no_lists w' (record { all = o.all }) in
    record { all = (send_last_joins-Owned l joined kept).all }

drop_capabilities-Owned :
    (caps : List Bytes) (w : World) → Owned w → Owned (drop_capabilities caps w)
unfolding drop_capabilities cap_end
drop_capabilities-Owned [] w o =
    Owned-if (is_empty_list w.client.capabilities)
      (record { all = (send_command-Owned (codes "CAP") (codes "END" ∷ []) w o).all }) o
drop_capabilities-Owned (cap ∷ caps) w o =
    Owned-if (contains cap w.client.capabilities)
      (drop_capabilities-Owned caps _ (record { all = o.all })) o

pub on_cap-Owned : (m : IrcMessage) (w : World) → Owned w → Keeps Owned (on_cap m w)
unfolding on_cap
on_cap-Owned m w o =
    Keeps-arg Owned m 1 _ λ sub_command. Keeps-arg Owned m 2 _ λ caps. drop_capabilities-Owned _ w o
