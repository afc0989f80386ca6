-- ===== src/Xmpp/Node.antt =====
-- src/xmpp/xmpp_stanza.cpp. A node owns its children, so the pointer to the parent is not kept: the
-- parser, which is the only one that follows it, holds the nodes that are open.
pub mod Escape
use biboumi.Base.{
  ℕ, Bool, true, false, not, ◌&&◌, ◌||◌, Option, none, some, List, [], ◌∷◌, ◌++◌, ◌==◌,
  if◌then◌else◌, Bytes, codes, eq_bytes, bytes_eq, is_empty, lookup, erase, put,
}
use biboumi.Utils.Encoding.{is_valid_utf8, remove_invalid_xml_chars}

unfoldable pub xml_escape : Bytes → Bytes
xml_escape [] = []
xml_escape (c ∷ data_) =
    (if c == b'&'
      then codes "&amp;"
      else if c == b'<'
      then codes "&lt;"
      else if c == b'>'
      then codes "&gt;"
      else if c == b'"'
      then codes "&quot;"
      else if c == b'\''
      then codes "&apos;"
      else c ∷ [])
    ++ xml_escape data_

mutual
  pub data XmlNode : Type 0 where
    node :
        (name : Bytes) (attributes : List (Bytes × Bytes)) (inner : Bytes) (children : XmlNodes)
        (tail : Bytes)
        → XmlNode

  pub data XmlNodes : Type 0 where
    nil : XmlNodes
    cons : XmlNode → XmlNodes → XmlNodes

-- The text behind the last `\1`, and the text before it.
unfoldable pub split_namespace : Bytes → Option (Bytes × Bytes)
split_namespace [] = none
split_namespace (c ∷ s) = elim (split_namespace s) [
  | some (xmlns, name) ↦ some (c ∷ xmlns, name)
  | none ↦ if c == 1 then some ([], s) else none
]

-- `XmlNode(name)` and `XmlNode(xmlns, name)`.
unfoldable pub make_node : Bytes → XmlNode
unfolding split_namespace
make_node full_name = elim (split_namespace full_name) [
  | none ↦ node full_name [] [] nil []
  | some (xmlns, name) ↦ node name ((codes "xmlns", xmlns) ∷ []) [] nil []
]

unfoldable pub make_node_ns : Bytes → Bytes → XmlNode
make_node_ns xmlns name = node name ((codes "xmlns", xmlns) ∷ []) [] nil []

unfoldable pub delete_all_children : XmlNode → XmlNode
delete_all_children (node name attributes inner children tail) = node name attributes inner nil tail

unfoldable pub set_attribute : Bytes → Bytes → XmlNode → XmlNode
unfolding put
set_attribute n v (node name attributes inner children tail) =
    node name (put n v attributes) inner children tail

unfoldable pub add_to_tail : Bytes → XmlNode → XmlNode
add_to_tail text (node name attributes inner children tail) =
    node name attributes inner children (tail ++ text)

unfoldable pub set_inner : Bytes → XmlNode → XmlNode
set_inner text (node name attributes inner children tail) = node name attributes text children tail

unfoldable pub add_to_inner : Bytes → XmlNode → XmlNode
add_to_inner text (node name attributes inner children tail) =
    node name attributes (inner ++ text) children tail

abbrev pub get_name : XmlNode → Bytes
get_name (node name attributes inner children tail) = name

abbrev pub get_inner : XmlNode → Bytes
get_inner (node name attributes inner children tail) = inner

abbrev pub children_of : XmlNode → XmlNodes
children_of (node name attributes inner children tail) = children

-- `get_tag`: the empty text where there is no such attribute.
unfoldable pub get_tag : Bytes → XmlNode → Bytes
get_tag n (node name attributes inner children tail) = elim (lookup n attributes) [
  | none ↦ []
  | some v ↦ v
]

unfoldable pub del_tag : Bytes → XmlNode → XmlNode
del_tag n (node name attributes inner children tail) =
    node name (erase n attributes) inner children tail

unfoldable pub push_back : XmlNode → XmlNodes → XmlNodes
push_back child nil = cons child nil
push_back child (cons x xs) = cons x (push_back child xs)

unfoldable pub add_child : XmlNode → XmlNode → XmlNode
unfolding push_back
add_child child (node name attributes inner children tail) =
    node name attributes inner (push_back child children) tail

abbrev pub is_child : Bytes → Bytes → XmlNode → Bool
is_child name xmlns child =
    eq_bytes (get_name child) name && eq_bytes (get_tag (codes "xmlns") child) xmlns

-- `get_children`, over the children of a node, and `get_child`, the first of them.
unfoldable pub find_children : Bytes → Bytes → XmlNodes → List XmlNode
unfolding get_tag
find_children name xmlns nil = []
find_children name xmlns (cons child children) =
    if is_child name xmlns child
    then child ∷ find_children name xmlns children
    else find_children name xmlns children

unfoldable pub get_children : Bytes → Bytes → XmlNode → List XmlNode
unfolding find_children
get_children name xmlns n = find_children name xmlns (children_of n)

abbrev first_of : List XmlNode → Option XmlNode
first_of [] = none
first_of (x ∷ xs) = some x

unfoldable pub get_child : Bytes → Bytes → XmlNode → Option XmlNode
unfolding get_children
get_child name xmlns n = first_of (get_children name xmlns n)

abbrev pub has_children : XmlNodes → Bool
has_children nil = false
has_children (cons x xs) = true

-- `this->get_last_child()->add_to_tail(text)`, where there is a child.
unfoldable pub add_to_last_tail : Bytes → XmlNodes → XmlNodes
unfolding add_to_tail
add_to_last_tail text nil = nil
add_to_last_tail text (cons x nil) = cons (add_to_tail text x) nil
add_to_last_tail text (cons x (cons y xs)) = cons x (add_to_last_tail text (cons y xs))

-- Text behind what a node holds: the tail of its last child, or its inner text.
abbrev pub append_text : Bytes → XmlNode → XmlNode
append_text text (node name attributes inner nil tail) =
    add_to_inner text (node name attributes inner nil tail)
append_text text (node name attributes inner (cons x xs) tail) =
    node name attributes inner (add_to_last_tail text (cons x xs)) tail

-- `convert` stands for `utils::convert_to_utf8`, which calls iconv.
module _ (convert : Bytes → Bytes → Bytes) where
  -- `none` is the exception that `remove_invalid_xml_chars` throws.
  unfoldable pub sanitize : Bytes → Option Bytes
  unfolding xml_escape
  sanitize text =
      elim (remove_invalid_xml_chars
        (if is_valid_utf8 text then text else convert text (codes "ISO-8859-1"))) [
          | none ↦ none
          | some kept ↦ some (xml_escape kept)
        ]

  infixr 5 ◌+++◌
  abbrev ◌+++◌ : Option Bytes → Option Bytes → Option Bytes
  some a +++ some b = some (a ++ b)
  some a +++ none = none
  none +++ b = none

  unfoldable pub attributes_text : List (Bytes × Bytes) → Option Bytes
  unfolding sanitize
  attributes_text [] = some []
  attributes_text ((n, v) ∷ attributes) =
      some (b' ' ∷ n)
      +++ some (codes "='")
      +++ sanitize v
      +++ some (codes "'")
      +++ attributes_text attributes

  unfoldable mutual
    unfolding sanitize attributes_text

    pub to_string : XmlNode → Option Bytes
    to_string (node name attributes inner children tail) =
        let content = children_text children in
        some (b'<' ∷ name)
        +++ attributes_text attributes
        +++ (if not (has_children children) && is_empty inner
            then some (codes "/>")
            else some (codes ">")
              +++ sanitize inner
              +++ content
              +++ some (codes "</")
              +++ some name
              +++ some (codes ">"))
        +++ sanitize tail

    pub children_text : XmlNodes → Option Bytes
    children_text nil = some []
    children_text (cons x xs) = to_string x +++ children_text xs
