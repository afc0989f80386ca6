-- ===== src/World.antt =====
-- The state that a message from one IRC server can reach: the client of that server
-- (src/irc/irc_client.hpp) and the bridge of its user (src/bridge/bridge.hpp), with what was
-- written to the server and what was asked of the XMPP component. The build is the one without the
-- database and without SASL. `Bridge::irc_clients` holds the client under its own host name, so
-- `find_irc_client` at that name is the client of this record.
use biboumi.Base.{ℕ, Bool, Option, none, some, List, [], ◌∷◌, ◌++◌, get_elem?, Bytes}
use biboumi.Irc.Channel.{IrcChannel}
use biboumi.Irc.Iid.{Iid}
use biboumi.Irc.Message.{IrcMessage}
use biboumi.Xmpp.Node.{XmlNode}
use biboumi.Utils.TokensBucket.{TokensBucket}

-- `MessageCallback`: none, or the one that `Bridge::send_channel_message` gives, with the `Iid` and
-- the id that it captures.
pub data MessageCallback : Type 0 where
  no_callback : MessageCallback
  mirror_to_all_resources : Iid → Bytes → MessageCallback

pub record IrcClient : Type 0 where
  pub hostname : Bytes
  pub own_host : Bytes
  pub user_hostname : Bytes
  pub username : Bytes
  pub realname : Bytes
  pub current_nick : Bytes
  pub message_queue : List (IrcMessage × MessageCallback)
  pub channels : List (Bytes × IrcChannel)
  pub channels_to_join : List (Bytes × Bytes)
  pub welcomed : Bool
  pub capabilities : List Bytes
  pub chanmodes : List Bytes
  pub chantypes : List ℕ
  pub motd : Bytes
  pub prefix_to_mode : List (ℕ × ℕ)
  pub sorted_user_modes : List ℕ
  pub ports_to_try : List (Bytes × Bool)
  pub nicks_to_treat_as_private : List Bytes
  pub tokens_bucket : TokensBucket
  -- `is_connecting() || is_connected()`, and the addresses that were given to `connect`
  pub active : Bool
  pub connects : List (Bytes × Bytes × Bool)
  -- what was given to `send_data`, in order
  pub sent : List Bytes

-- A call of the XMPP component. A text is the one before `make_xmpp_body`, which only changes its
-- encoding and its format.
pub data XmppCall : Type 0 where
  send_message : (from body to : Bytes) → XmppCall
  muc_message : (from nick body to : Bytes) → XmppCall
  muc_leave :
      (from nick message to : Bytes) (self user_requested : Bool) (affiliation role : Bytes)
      → XmppCall
  nick_change : (from old new affiliation role to : Bytes) (self : Bool) → XmppCall
  user_join : (from nick full_jid affiliation role to : Bytes) (self : Bool) → XmppCall
  topic_of : (from topic to who : Bytes) → XmppCall
  kick_user : (from target reason author to : Bytes) (self : Bool) → XmppCall
  presence_error : (from nick to type condition error_code text : Bytes) → XmppCall
  affiliation_role_change : (from target affiliation role to : Bytes) → XmppCall
  iq_version_request : (from to : Bytes) → XmppCall
  ping_request : (from to id : Bytes) → XmppCall
  invitation : (from to author : Bytes) → XmppCall
  stanza_error : (kind to from id type condition text : Bytes) (fulljid : Bool) → XmppCall
  iq_result : (id to from : Bytes) → XmppCall
  iq_result_full_jid : (id to from : Bytes) → XmppCall
  version_result : (id to from version : Bytes) → XmppCall
  stanza : XmlNode → XmppCall
  irc_connected : (hostname : Bytes) → XmppCall
  irc_disconnected : (hostname : Bytes) → XmppCall

-- In the two maps a missing entry and an empty set are the same: the source makes empty entries by
-- `operator[]`, and never asks for more than the elements.
pub record Bridge : Type 0 where
  pub user_jid : Bytes
  pub served_hostname : Bytes
  pub fixed_irc_server : Bytes
  pub resources_in_chan : List ((Bytes × Bytes) × List Bytes)
  pub resources_in_server : List (Bytes × List Bytes)
  pub calls : List XmppCall

pub record World : Type 0 where
  pub client : IrcClient
  pub bridge : Bridge

-- What C++ leaves undefined: an index past the end of a vector, a null pointer.
pub data Fault : Type 0 where
  out_of_bounds null_pointer : Fault

-- `thrown` is an exception, with the state that it leaves.
pub data Outcome (A : Type 0) : Type 0 where
  ok : A → Outcome A
  thrown : World → Outcome A
  fault : Fault → Outcome A

infixl 5 ◌>>=◌
abbrev pub ◌>>=◌ : {A B : Type 0} → Outcome A → (A → Outcome B) → Outcome B
ok a >>= f = f a
thrown w >>= f = thrown w
fault e >>= f = fault e

abbrev pub or_fault : {A : Type 0} → Fault → Option A → Outcome A
or_fault e none = fault e
or_fault e (some a) = ok a

-- `message.arguments[i]`
abbrev pub arg : IrcMessage → ℕ → Outcome Bytes
arg m i = or_fault out_of_bounds (get_elem? m.arguments i)

abbrev pub with_client : (IrcClient → IrcClient) → World → World
with_client f w = record w { client = f w.client }

abbrev pub with_bridge : (Bridge → Bridge) → World → World
with_bridge f w = record w { bridge = f w.bridge }

abbrev pub emit : XmppCall → World → World
emit call w = record w { bridge = record w.bridge { calls = w.bridge.calls ++ call ∷ [] } }
