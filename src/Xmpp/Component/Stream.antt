-- ===== src/Xmpp/Component/Stream.antt =====
-- The stream of src/xmpp/xmpp_component.cpp with the XMPP server: its opening, the handshake, its
-- errors and its end. What is given to `send_data` is kept as a list. `to_text` stands for
-- `XmlNode::to_string`. What waits in the buffer when the connection is made is sent by the socket.
use biboumi.Base.{
  Bool, true, false, not, List, [], ◌∷◌, ◌++◌, if◌then◌else◌, Bytes, codes, is_empty,
}
use biboumi.Xmpp.Adhoc.{stanza_ns}
use biboumi.Xmpp.Component.{sub_node, tag_if, when}
use biboumi.Xmpp.Node.{
  XmlNode, make_node, make_node_ns, set_attribute, set_inner, add_child, get_tag,
}

abbrev stream_ns : Bytes
stream_ns = codes "http://etherx.jabber.org/streams"

unfoldable pub stream_error_stanza : (name explanation : Bytes) → XmlNode
unfolding make_node make_node_ns set_attribute set_inner add_child
stream_error_stanza name explanation =
    add_child (when (not (is_empty explanation)) (set_inner explanation) (sub_node name stream_ns))
      (make_node_ns (codes "stream") (codes "error"))

abbrev error_node : (type condition text : Bytes) → XmlNode
error_node type condition text =
    when (not (is_empty text)) (add_child (set_inner text (sub_node (codes "text") stanza_ns))) (
      add_child (sub_node condition stanza_ns)
        (set_attribute (codes "type") type (make_node (codes "error"))))

unfoldable pub stanza_error_stanza :
    (served_hostname kind to from id type condition text : Bytes) (fulljid : Bool) → XmlNode
unfolding make_node set_attribute set_inner add_child
stanza_error_stanza served_hostname kind to from id type condition text fulljid =
    let sender = if fulljid then from else from ++ b'@' ∷ served_hostname in
    add_child (error_node type condition text) (
      set_attribute (codes "type") (codes "error") (
        tag_if (codes "id") id (
          when (not (is_empty from)) (set_attribute (codes "from") sender)
            (tag_if (codes "to") to (make_node kind)))))

pub record Stream : Type 0 where
  pub stream_id : Bytes
  pub doc_open : Bool
  pub authenticated : Bool
  pub ever_auth : Bool
  pub first_connection_try : Bool
  pub sent : List Bytes

unfoldable pub send_text : Bytes → Stream → Stream
send_text text s = record s { sent = s.sent ++ text ∷ [] }

unfoldable pub on_connected : Bytes → Stream → Stream
unfolding send_text
on_connected served_hostname s =
    let opening =
      codes "<stream:stream to='"
      ++ served_hostname
      ++ codes
          "' xmlns:stream='http://etherx.jabber.org/streams' xmlns='jabber:component:accept'>" in
    record (send_text opening (record s { first_connection_try = true })) { doc_open = true }

unfoldable pub close_document : Stream → Stream
unfolding send_text
close_document s = record (send_text (codes "</stream:stream>") s) { doc_open = false }

unfoldable pub on_remote_stream_close : Stream → Stream
on_remote_stream_close s = record s { doc_open = false }

unfoldable pub handle_handshake : Stream → Stream
handle_handshake s = record s { authenticated = true; ever_auth = true }

module _ (sha1 : Bytes → Bytes) where
  unfoldable pub get_handshake_digest : (stream_id secret : Bytes) → Bytes
  get_handshake_digest stream_id secret = sha1 (stream_id ++ secret)

module _ (sha1 : Bytes → Bytes) (to_text : XmlNode → Bytes) where
  unfoldable pub on_remote_stream_open : Bytes → XmlNode → Stream → Stream
  unfolding get_tag send_text close_document stream_error_stanza get_handshake_digest
  on_remote_stream_open secret n s =
      let id = get_tag (codes "id") n in
      let s' = record s { stream_id = id } in
      if is_empty id
      then close_document (
          send_text
            (to_text (stream_error_stanza (codes "bad-format") (codes "missing 'id' attribute")))
            s')
      else send_text
          (codes "<handshake xmlns='jabber:component:accept'>"
            ++ get_handshake_digest sha1 id secret
            ++ codes "</handshake>")
          s'
