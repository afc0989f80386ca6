-- ===== src/Bridge/Outgoing.antt =====
-- What src/bridge/bridge.cpp sends to the XMPP side for each event of the IRC side.
pub mod Leave
use biboumi.Base.{
  ℕ, zero, suc, ◌+◌, Bool, true, false, not, ◌&&◌, ◌||◌, Option, none, some, List, [], ◌∷◌, ◌++◌,
  ◌==◌, if◌then◌else◌, Bytes, codes, eq_bytes, is_empty, length,
}
use biboumi.Irc.Iid.{Iid, to_string, to_tuple, channel}
use biboumi.Irc.User.{IrcUser, get_most_significant_mode, nick_of, host_of}
use biboumi.Irc.Channel.{IrcChannel}
use biboumi.Utils.Strings.{tolower, revstr}
use biboumi.Utils.Encoding.{encode}
use biboumi.Bridge.Roles.{get_role_affiliation_from_irc_mode}
use biboumi.Bridge.Resources.{
  resources_of_chan, resources_of_server, remove_all_resources_from_chan, leave_server_if_unused,
}
use biboumi.Client.Send.{full_jid, send_quit_command}
use biboumi.World.{
  IrcClient, Bridge, World, with_bridge, emit, XmppCall, send_message, muc_message, muc_leave,
  nick_change, user_join, topic_of, kick_user, presence_error, affiliation_role_change,
  iq_version_request, ping_request, invitation,
}

-- `for (const auto& resource: resources) this->xmpp.…(…, this->user_jid + "/" + resource)`
unfoldable pub emit_all : (Bytes → XmppCall) → List Bytes → World → World
emit_all call [] w = w
emit_all call (resource ∷ resources) w =
    emit_all call resources (emit (call (full_jid w.bridge resource)) w)

abbrev pub fixed : World → Bytes
fixed w = w.bridge.fixed_irc_server

-- `utils::empty_if_fixed_server("%" + hostname)`
abbrev pub percent_host : World → Bytes → Bytes
percent_host w hostname = if is_empty (fixed w) then b'%' ∷ hostname else []

abbrev pub is_empty_list : {A : Type 0} → List A → Bool
is_empty_list [] = true
is_empty_list (x ∷ xs) = false

abbrev mode_in : World → IrcUser → ℕ
mode_in w user = get_most_significant_mode user w.client.sorted_user_modes

unfoldable pub leave_call : World → Iid → IrcUser → Bytes → Bool → Bool → Bytes → XmppCall
leave_call w iid user message self user_requested to =
    let (role, affiliation) = get_role_affiliation_from_irc_mode (mode_in w user) in
    muc_leave (to_string (fixed w) iid) user.nick message to self user_requested affiliation role

-- Every resource leaves the channel, and the server if it is in no other channel of it.
unfoldable pub forget_chan : Iid → World → World
forget_chan iid w =
    with_bridge
      (λ b.
        leave_server_if_unused iid.server_name (resources_of_chan (to_tuple iid) b)
          (remove_all_resources_from_chan (to_tuple iid) b))
      w

-- The last lines: with no channel left, the client quits.
unfoldable pub quit_if_unused : Iid → Bool → World → World
quit_if_unused iid self w =
    if self && eq_bytes iid.server_name w.client.hostname && is_empty_list w.client.channels
    then send_quit_command [] w
    else w

-- `send_muc_leave` with no resource: for all the resources of the channel.
unfoldable pub send_muc_leave : Iid → IrcUser → Bytes → Bool → Bool → World → World
unfolding forget_chan quit_if_unused
send_muc_leave iid user message self user_requested w =
    let told =
      emit_all (leave_call w iid user message self user_requested)
        (resources_of_chan (to_tuple iid) w.bridge) w in
    quit_if_unused iid self (if self then forget_chan iid told else told)

-- `send_muc_leave` for one resource.
unfoldable pub send_muc_leave_to : Iid → IrcUser → Bytes → Bool → Bool → Bytes → World → World
unfolding quit_if_unused
send_muc_leave_to iid user message self user_requested resource w =
    quit_if_unused iid self
      (emit (leave_call w iid user message self user_requested (full_jid w.bridge resource)) w)

unfoldable pub send_nick_change : Iid → Bytes → Bytes → ℕ → Bool → World → World
send_nick_change iid old_nick new_nick user_mode self w =
    let (role, affiliation) = get_role_affiliation_from_irc_mode user_mode in
    emit_all
      (λ to. nick_change (to_string (fixed w) iid) old_nick new_nick affiliation role to self)
      (resources_of_chan (to_tuple iid) w.bridge) w

-- The author in front of a text, in colour: `nick: ` or `nick (host): `.
unfoldable pub authored : Bytes → Bytes → Bytes
authored author msg =
    if is_empty author
    then msg
    else codes "\u{3}03"
      ++ (nick_of author
          ++ ((if is_empty (host_of author)
                then codes "\u{3}: "
                else codes " (\u{3}10" ++ (host_of author ++ codes "\u{3}03)\u{3}: "))
              ++ msg))

unfoldable pub send_xmpp_message : Bytes → Bytes → Bytes → World → World
send_xmpp_message from author msg w =
    emit_all (send_message (if is_empty (fixed w) then from else []) (authored author msg))
      (resources_of_server from w.bridge) w

-- `send_message`, to a room or to one user.
unfoldable pub send_bridge_message : Iid → Bytes → Bytes → Bool → World → World
send_bridge_message iid nick body muc w =
    if muc
    then emit_all (muc_message (to_string (fixed w) iid) nick body)
        (resources_of_chan (to_tuple iid) w.bridge) w
    else emit (send_message (to_string (fixed w) iid) body w.bridge.user_jid) w

unfoldable pub send_xmpp_invitation : Iid → Bytes → World → World
send_xmpp_invitation iid author w =
    emit_all (λ to. invitation (to_string (fixed w) iid) to author)
      (resources_of_server iid.server_name w.bridge) w

abbrev slash_host : Bytes → Bytes
slash_host [] = []
slash_host (c ∷ host) = b'/' ∷ c ∷ host

unfoldable pub user_full_jid : World → Bytes → IrcUser → Bytes
user_full_jid w hostname user =
    encode user.nick
    ++ (percent_host w hostname ++ (b'@' ∷ (w.bridge.served_hostname ++ slash_host user.host)))

unfoldable pub join_call : World → Bytes → Bytes → IrcUser → ℕ → Bool → Bytes → XmppCall
join_call w hostname chan_name user user_mode self to =
    let (role, affiliation) = get_role_affiliation_from_irc_mode user_mode in
    user_join (encode chan_name ++ percent_host w hostname) user.nick
      (user_full_jid w hostname user) affiliation role to self

-- A channel that nobody asked to join: all the resources of the server are invited.
unfoldable pub send_user_join : Bytes → Bytes → IrcUser → ℕ → Bool → World → World
send_user_join hostname chan_name user user_mode self w =
    let resources = resources_of_chan (chan_name, hostname) w.bridge in
    if self && is_empty_list resources
    then send_xmpp_invitation (record { local = chan_name; server_name = hostname; type = channel })
        [] w
    else emit_all (join_call w hostname chan_name user user_mode self) resources w

unfoldable pub send_topic : Bytes → Bytes → Bytes → Bytes → World → World
send_topic hostname chan_name topic who w =
    emit_all (λ to. topic_of (encode chan_name ++ percent_host w hostname) topic to who)
      (resources_of_chan (chan_name, hostname) w.bridge) w

unfoldable pub kick_muc_user : Iid → Bytes → Bytes → Bytes → Bool → World → World
kick_muc_user iid target reason author self w =
    emit_all (λ to. kick_user (to_string (fixed w) iid) target reason author to self)
      (resources_of_chan (to_tuple iid) w.bridge) w

unfoldable pub send_nickname_conflict_error : Iid → Bytes → World → World
send_nickname_conflict_error iid nickname w =
    emit_all
      (λ to.
        presence_error (to_string (fixed w) iid) nickname to (codes "cancel") (codes "conflict")
          (codes "409") [])
      (resources_of_chan (to_tuple iid) w.bridge) w

unfoldable pub send_presence_error : Iid → Bytes → Bytes → Bytes → Bytes → Bytes → World → World
send_presence_error iid nick type condition error_code text w =
    emit
      (presence_error (to_string (fixed w) iid) nick w.bridge.user_jid type condition error_code
        text)
      w

unfoldable pub send_affiliation_role_change : Iid → Bytes → ℕ → World → World
send_affiliation_role_change iid target mode w =
    let (role, affiliation) = get_role_affiliation_from_irc_mode mode in
    emit_all (affiliation_role_change (to_string (fixed w) iid) target affiliation role)
      (resources_of_chan (to_tuple iid) w.bridge) w

-- The first resource of the server, if there is one.
abbrev first_resource : List Bytes → (Bytes → XmppCall) → World → World
first_resource [] call w = w
first_resource (r ∷ rs) call w = emit (call (full_jid w.bridge r)) w

unfoldable pub send_iq_version_request : Bytes → Bytes → World → World
send_iq_version_request nick hostname w =
    first_resource (resources_of_server hostname w.bridge)
      (iq_version_request (tolower nick ++ percent_host w hostname)) w

unfoldable pub send_xmpp_ping_request : Bytes → Bytes → Bytes → World → World
send_xmpp_ping_request nick hostname id w =
    first_resource (resources_of_server hostname w.bridge)
      (λ to. ping_request (tolower nick ++ percent_host w hostname) to (revstr id)) w
