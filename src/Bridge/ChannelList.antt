-- ===== src/Bridge/ChannelList.antt =====
-- The list of the channels of a server (src/bridge/list_element.hpp, result_set_management.hpp),
-- `send_matching_channel_list` of src/bridge/bridge.cpp, and `send_iq_room_list_result` of
-- src/xmpp/biboumi_component.cpp. Iterators of the vector are positions.
use biboumi.Base.{
  ℕ, zero, suc, ◌+◌, ◌-◌, ◌/◌, ◌%◌, Bool, true, false, not, ◌&&◌, ◌||◌, Option, none, some, List,
  [], ◌∷◌, ◌++◌, ltb, leb, ◌==◌, if◌then◌else◌, Bytes, codes, eq_bytes, is_empty, length, get_elem?,
  take, drop,
}
use biboumi.Utils.Encoding.{encode}
use biboumi.Xmpp.Node.{XmlNode, make_node, set_attribute, set_inner, add_child}

pub record ListElement : Type 0 where
  pub channel : Bytes
  pub nb_users : Bytes
  pub topic : Bytes

pub record ChannelList : Type 0 where
  pub complete : Bool
  pub channels : List ListElement

-- A negative `max` is `none`.
pub record ResultSetInfo : Type 0 where
  pub max : Option ℕ
  pub before : Bytes
  pub after : Bytes

-- The decimal digits of a number: `std::to_string`. A number has no more digits than its value and
-- one.
unfoldable pub digits : ℕ → ℕ → Bytes
digits zero n = []
digits (suc fuel) n =
    let rest = digits fuel (n / 10) in
    if ltb n 10 then (b'0' + n) ∷ [] else rest ++ (b'0' + n % 10) ∷ []

unfoldable pub print_number : ℕ → Bytes
unfolding digits
print_number n = digits (suc n) n

-- The JID of an element, as it stands in a `before` or an `after`.
unfoldable pub element_jid : Bytes → ListElement → Bytes
element_jid host e = e.channel ++ b'@' ∷ host

-- `std::find_if`: the position of the element, or the end.
unfoldable pub find_jid : Bytes → Bytes → List ListElement → ℕ
unfolding element_jid
find_jid host jid [] = 0
find_jid host jid (e ∷ es) =
    let rest = suc (find_jid host jid es) in if eq_bytes jid (element_jid host e) then 0 else rest

-- What is sent: nothing yet, the elements from one position to another, or, where the second is
-- the smaller one, what C++ leaves undefined.
pub data Page : Type 0 where
  not_yet : Page
  range : ℕ → ℕ → Page
  bad_range : Page

abbrev pub make_range : ℕ → ℕ → Page
make_range begin end = if leb begin end then range begin end else bad_range

-- `std::distance(begin, end) >= max`, which may be of a negative distance.
abbrev cut_to_max : Option ℕ → ℕ → ℕ → ℕ
cut_to_max none begin end = end
cut_to_max (some max) begin end = if leb (begin + max) end then begin + max else end

unfoldable pub complete_page : Bytes → List ListElement → ResultSetInfo → Page
unfolding find_jid
complete_page host channels rs =
    let found = find_jid host rs.after channels in
    let begin = if found == length channels then 0 else suc found in
    make_range begin (cut_to_max rs.max begin (find_jid host rs.before channels))

-- With `max`, all of it must be there.
abbrev full_page : Option ℕ → ℕ → ℕ → Page
full_page none begin end = make_range begin end
full_page (some max) begin end =
    if leb (begin + max) end then range begin (begin + max) else not_yet

abbrev is_none : Option ℕ → Bool
is_none none = true
is_none (some n) = false

unfoldable pub partial_page : Bytes → List ListElement → ResultSetInfo → Page
unfolding find_jid
partial_page host channels rs =
    let after = find_jid host rs.after channels in
    let before = find_jid host rs.before channels in
    if is_empty rs.after && is_empty rs.before && is_none rs.max
    then not_yet
    else if not (is_empty rs.after) && after == length channels
    then not_yet
    else if not (is_empty rs.before) && before == length channels
    then not_yet
    else full_page rs.max (if is_empty rs.after then 0 else suc after)
        (if is_empty rs.before then length channels else before)

unfoldable pub matching_page : Bytes → ChannelList → ResultSetInfo → Page
unfolding complete_page partial_page
matching_page host list rs =
    if list.complete
    then complete_page host list.channels rs
    else partial_page host list.channels rs

unfoldable pub page_of : ℕ → ℕ → List ListElement → List ListElement
page_of begin end channels = take (end - begin) (drop begin channels)

abbrev add_items : Bytes → List ListElement → XmlNode → XmlNode
add_items host [] query = query
add_items host (e ∷ es) query = add_items host es (
    add_child
      (set_attribute (codes "jid") (encode e.channel ++ b'@' ∷ host) (make_node (codes "item")))
      query)

abbrev add_first : Bytes → ℕ → Option ListElement → XmlNode → XmlNode
add_first host begin none set_node = set_node
add_first host begin (some e) set_node =
    add_child
      (set_inner (element_jid host e)
        (set_attribute (codes "index") (print_number begin) (make_node (codes "first"))))
      set_node

abbrev add_last : Bytes → Option ListElement → XmlNode → XmlNode
add_last host none set_node = set_node
add_last host (some e) set_node =
    add_child (set_inner (element_jid host e) (make_node (codes "last"))) set_node

-- The element in front of a position.
abbrev element_before : ℕ → List ListElement → Option ListElement
element_before zero channels = none
element_before (suc n) channels = get_elem? channels n

unfoldable pub result_set : Bytes → ChannelList → ℕ → ℕ → XmlNode
unfolding print_number element_jid
result_set host list begin end =
    let set_node = add_last host (element_before end list.channels) (
      add_first host begin (get_elem? list.channels begin) (
        set_attribute (codes "xmlns") (codes "http://jabber.org/protocol/rsm")
          (make_node (codes "set")))) in
    if list.complete
    then add_child (set_inner (print_number (length list.channels)) (make_node (codes "count")))
        set_node
    else set_node

unfoldable pub room_list_result :
    Bytes → Bytes → Bytes → Bytes → ChannelList → ℕ → ℕ → ResultSetInfo → XmlNode
unfolding result_set page_of
room_list_result host id to_jid from list begin end rs =
    let query = add_items host (page_of begin end list.channels) (
      set_attribute (codes "xmlns") (codes "http://jabber.org/protocol/disco#items")
        (make_node (codes "query"))) in
    add_child
      (if not (is_none rs.max) || not (is_empty rs.after) || not (is_empty rs.before)
        then add_child (result_set host list begin end) query
        else query)
      (set_attribute (codes "type") (codes "result") (
        set_attribute (codes "id") id (
          set_attribute (codes "to") to_jid
            (set_attribute (codes "from") (from ++ b'@' ∷ host) (make_node (codes "iq"))))))
