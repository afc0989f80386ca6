-- ===== src/Xmpp/Component.antt =====
-- The stanzas that src/xmpp/xmpp_component.cpp builds, each as its function makes it before it is
-- sent. An `XmlSubNode` is added to its parent when it goes out of scope, so of those that end
-- together the last one comes first. A body is a text, with the XHTML node if there is one. The
-- next id of a stanza, which is random, is an argument.
pub mod Status
pub mod Stream
use biboumi.Base.{
  Bool, true, false, not, ◌&&◌, Option, none, some, List, [], ◌∷◌, ◌++◌, if◌then◌else◌, Bytes,
  codes, is_empty,
}
use biboumi.Xmpp.Node.{XmlNode, make_node, set_attribute, set_inner, add_child}
use biboumi.Xmpp.Adhoc.{AdhocCommand, stanza_ns, adhoc_ns}

abbrev muc_ns : Bytes
muc_ns = codes "http://jabber.org/protocol/muc"

abbrev muc_user_ns : Bytes
muc_user_ns = codes "http://jabber.org/protocol/muc#user"

abbrev version_ns : Bytes
version_ns = codes "jabber:iq:version"

abbrev xhtmlim_ns : Bytes
xhtmlim_ns = codes "http://jabber.org/protocol/xhtml-im"

abbrev stable_id_ns : Bytes
stable_id_ns = codes "urn:xmpp:sid:0"

abbrev disco_items_ns : Bytes
disco_items_ns = codes "http://jabber.org/protocol/disco#items"

abbrev pub sub_node : Bytes → Bytes → XmlNode
sub_node name xmlns = set_attribute (codes "xmlns") xmlns (make_node name)

-- A change that is made under a condition.
abbrev pub when : Bool → (XmlNode → XmlNode) → XmlNode → XmlNode
when false change n = n
when true change n = change n

-- An attribute, where it has a value.
abbrev pub tag_if : Bytes → Bytes → XmlNode → XmlNode
tag_if name value n = when (not (is_empty value)) (set_attribute name value) n

abbrev text_node : Bytes → Bytes → XmlNode
text_node name text = set_inner text (make_node name)

abbrev status_code : Bytes → XmlNode
status_code code = set_attribute (codes "code") code (make_node (codes "status"))

abbrev item_node : Bytes → Bytes → XmlNode
item_node affiliation role =
    set_attribute (codes "role") role
      (set_attribute (codes "affiliation") affiliation (make_node (codes "item")))

abbrev html_child : Option XmlNode → XmlNode → XmlNode
html_child none message = message
html_child (some html) message =
    add_child (add_child html (sub_node (codes "html") xhtmlim_ns)) message

abbrev iq_node : Bytes → Bytes → Bytes → Bytes → XmlNode
iq_node type id to from = set_attribute (codes "from") from (
    set_attribute (codes "to") to
      (set_attribute (codes "id") id (set_attribute (codes "type") type (make_node (codes "iq")))))

-- `software_version` is made by the build, and `system_name` asks the system.
unfoldable pub version_stanza : (software_version system_name id to from version : Bytes) → XmlNode
unfolding make_node set_attribute set_inner add_child
version_stanza software_version system_name id to from version =
    let query = sub_node (codes "query") version_ns in
    add_child
      (if is_empty version
        then add_child (text_node (codes "os") system_name) (
            add_child (text_node (codes "version") software_version)
              (add_child (text_node (codes "name") (codes "biboumi")) query))
        else add_child (text_node (codes "name") version) query)
      (iq_node (codes "result") id to from)

unfoldable pub iq_result_full_jid_stanza : (id to from : Bytes) → Option XmlNode → XmlNode
unfolding make_node set_attribute add_child
iq_result_full_jid_stanza id to from none = iq_node (codes "result") id to from
iq_result_full_jid_stanza id to from (some inner) =
    add_child inner (iq_node (codes "result") id to from)

module _ {Step : Type 0} where
  -- The items of the commands that may be listed.
  unfoldable pub command_items : Bytes → Bool → List (Bytes × AdhocCommand Step) → XmlNode → XmlNode
  unfolding make_node set_attribute add_child
  command_items from with_admin_only [] query = query
  command_items from with_admin_only ((key, command) ∷ rest) query =
      command_items from with_admin_only rest (
        if command.admin_only && not with_admin_only
        then query
        else add_child
            (set_attribute (codes "name") command.name (
              set_attribute (codes "node") key
                (set_attribute (codes "jid") from (make_node (codes "item")))))
            query)

  unfoldable pub adhoc_commands_list_stanza :
      (id to from : Bytes) → Bool → List (Bytes × AdhocCommand Step) → XmlNode
  unfolding make_node set_attribute add_child command_items
  adhoc_commands_list_stanza id to from with_admin_only commands =
      add_child
        (command_items from with_admin_only commands
          (set_attribute (codes "node") adhoc_ns (sub_node (codes "query") disco_items_ns)))
        (iq_node (codes "result") id to from)

module _ (served_hostname : Bytes) where
  abbrev pub room_jid : Bytes → Bytes
  room_jid muc_name = muc_name ++ b'@' ∷ served_hostname

  abbrev pub occupant_jid : Bytes → Bytes → Bytes
  occupant_jid muc_name nick = room_jid muc_name ++ b'/' ∷ nick

  -- The gateway itself, where there is no local part.
  abbrev jid_or_gateway : Bytes → Bytes
  jid_or_gateway local = if is_empty local then served_hostname else room_jid local

  abbrev room_or_occupant : Bytes → Bytes → Bytes
  room_or_occupant muc_name nick =
      if is_empty nick then room_jid muc_name else occupant_jid muc_name nick

  abbrev addressed : Bytes → Bytes → Bytes → XmlNode
  addressed name to from =
      set_attribute (codes "from") from (set_attribute (codes "to") to (make_node name))

  abbrev typed : Bytes → XmlNode → XmlNode
  typed type n = set_attribute (codes "type") type n

  unfoldable pub message_stanza :
      (from text : Bytes)
      → Option XmlNode
      → (to type : Bytes) → (fulljid nocopy muc_private : Bool) → XmlNode
  unfolding make_node set_attribute set_inner add_child
  message_stanza from text html to type fulljid nocopy muc_private =
      add_child (text_node (codes "body") text) (
        when muc_private (add_child (sub_node (codes "x") muc_user_ns)) (
          when nocopy
            (λ m.
              add_child (sub_node (codes "private") (codes "urn:xmpp:carbons:2"))
                (add_child (sub_node (codes "no-copy") (codes "urn:xmpp:hints")) m))
            (html_child html (
              tag_if (codes "type") type
                (addressed (codes "message") to (if fulljid then from else jid_or_gateway from))))))

  -- The presence of a user whose address is prepared, or empty.
  unfoldable pub user_join_as : (from nick jid affiliation role to : Bytes) → Bool → XmlNode
  unfolding make_node set_attribute add_child
  user_join_as from nick jid affiliation role to self =
      let item = tag_if (codes "jid") jid (
        tag_if (codes "role") role
          (tag_if (codes "affiliation") affiliation (make_node (codes "item")))) in
      add_child
        (add_child item (
          when self
            (λ x.
              add_child (status_code (codes "110"))
                (add_child (status_code (codes "210")) (add_child (status_code (codes "100")) x)))
            (sub_node (codes "x") muc_user_ns)))
        (addressed (codes "presence") to (occupant_jid from nick))

  -- `prep` is `jidprep`.
  unfoldable pub user_join_stanza :
      (Bytes → Bytes) → (from nick realjid affiliation role to : Bytes) → Bool → XmlNode
  unfolding user_join_as
  user_join_stanza prep from nick realjid affiliation role to self =
      user_join_as from nick (if is_empty realjid then [] else prep realjid) affiliation role to
        self

  unfoldable pub topic_stanza : (from topic to who : Bytes) → XmlNode
  unfolding make_node set_attribute set_inner add_child
  topic_stanza from topic to who =
      add_child (text_node (codes "subject") topic)
        (typed (codes "groupchat") (addressed (codes "message") to (room_or_occupant from who)))

  unfoldable pub make_muc_message :
      (muc_name nick text : Bytes) → Option XmlNode → (to uuid id : Bytes) → XmlNode
  unfolding make_node set_attribute set_inner add_child
  make_muc_message muc_name nick text html to uuid id =
      when (not (is_empty uuid))
        (add_child (
          set_attribute (codes "id") uuid (
            set_attribute (codes "by") (room_jid muc_name)
              (sub_node (codes "stanza-id") stable_id_ns))))
        (html_child html (
          add_child (text_node (codes "body") text) (
            set_attribute (codes "id") id (
              typed (codes "groupchat")
                (addressed (codes "message") to (room_or_occupant muc_name nick))))))

  unfoldable pub muc_leave_stanza :
      (muc_name nick message to : Bytes)
      → (self user_requested : Bool) → (affiliation role : Bytes) → XmlNode
  unfolding make_node set_attribute set_inner add_child
  muc_leave_stanza muc_name nick message to self user_requested affiliation role =
      add_child
        (add_child (item_node affiliation role) (
          when (self && not user_requested) (add_child (status_code (codes "332")))
            (when self (add_child (status_code (codes "110"))) (sub_node (codes "x") muc_user_ns))))
        (when (not (is_empty message)) (add_child (text_node (codes "status") message)) (
          typed (codes "unavailable")
            (addressed (codes "presence") to (occupant_jid muc_name nick))))

  -- The presence of the old nick. That of the new one is `user_join_stanza`.
  unfoldable pub nick_change_stanza :
      (muc_name old_nick new_nick affiliation role to : Bytes) → Bool → XmlNode
  unfolding make_node set_attribute add_child
  nick_change_stanza muc_name old_nick new_nick affiliation role to self =
      add_child
        (add_child (set_attribute (codes "nick") new_nick (item_node affiliation role)) (
          add_child (status_code (codes "303"))
            (when self (add_child (status_code (codes "110"))) (sub_node (codes "x") muc_user_ns))))
        (typed (codes "unavailable")
          (addressed (codes "presence") to (occupant_jid muc_name old_nick)))

  -- The two stanzas that are sent for a change of nick.
  unfoldable pub nick_change_stanzas :
      (Bytes → Bytes)
      → (muc_name old_nick new_nick affiliation role to : Bytes) → Bool
      → List XmlNode
  unfolding nick_change_stanza user_join_stanza
  nick_change_stanzas prep muc_name old_nick new_nick affiliation role to self =
      nick_change_stanza muc_name old_nick new_nick affiliation role to self
      ∷ user_join_stanza prep muc_name new_nick [] affiliation role to self
      ∷ []

  unfoldable pub kick_user_stanza : (muc_name target text author to : Bytes) → Bool → XmlNode
  unfolding make_node set_attribute set_inner add_child
  kick_user_stanza muc_name target text author to self =
      let actor =
        set_attribute (codes "jid") author
          (set_attribute (codes "nick") author (make_node (codes "actor"))) in
      let item =
        add_child actor
          (add_child (text_node (codes "reason") text) (item_node (codes "none") (codes "none"))) in
      add_child
        (add_child item (
          add_child (status_code (codes "307"))
            (when self (add_child (status_code (codes "110"))) (sub_node (codes "x") muc_user_ns))))
        (typed (codes "unavailable")
          (addressed (codes "presence") to (occupant_jid muc_name target)))

  unfoldable pub presence_error_stanza :
      (muc_name nickname to type condition error_code text : Bytes) → XmlNode
  unfolding make_node set_attribute set_inner add_child
  presence_error_stanza muc_name nickname to type condition error_code text =
      let error =
        set_attribute (codes "type") type
          (set_attribute (codes "by") (room_jid muc_name) (make_node (codes "error"))) in
      add_child (sub_node (codes "x") muc_ns) (
        add_child
          (add_child (sub_node condition stanza_ns) (
            tag_if (codes "code") error_code (
              when (not (is_empty text))
                (add_child (set_inner text (sub_node (codes "text") stanza_ns))) error)))
          (typed (codes "error")
            (addressed (codes "presence") to (occupant_jid muc_name nickname))))

  unfoldable pub affiliation_role_change_stanza :
      (muc_name target affiliation role to : Bytes) → XmlNode
  unfolding make_node set_attribute add_child
  affiliation_role_change_stanza muc_name target affiliation role to =
      add_child (add_child (item_node affiliation role) (sub_node (codes "x") muc_user_ns))
        (addressed (codes "presence") to (occupant_jid muc_name target))

  unfoldable pub iq_version_request_stanza : (next_id from to : Bytes) → XmlNode
  unfolding make_node set_attribute add_child
  iq_version_request_stanza next_id from to =
      add_child (sub_node (codes "query") version_ns)
        (iq_node (codes "get") (codes "version_" ++ next_id) to (room_jid from))

  unfoldable pub iq_result_stanza : (id to from_local_part : Bytes) → XmlNode
  unfolding make_node set_attribute
  iq_result_stanza id to from_local_part =
      iq_node (codes "result") id to (jid_or_gateway from_local_part)
