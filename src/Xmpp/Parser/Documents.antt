-- ===== src/Xmpp/Parser/Documents.antt =====
-- The trees that the parser builds from the events of a document.
use mathlib.Core.List.{append_assoc, append-nil}
use biboumi.Base.{put, ℕ, suc, some, List, [], ◌∷◌, ◌++◌, ◌≡◌, refl, ap, sym, ◌∙◌, arith, Bytes}
use biboumi.Xmpp.Node.{
  XmlNode, XmlNodes, node, nil, cons, make_node, set_attribute, add_to_tail, add_to_inner,
  push_back, add_child, append_text, delete_all_children, add_to_last_tail,
}
use biboumi.Xmpp.Parser.{
  SaxEvent, start_element, end_element, char_data, StreamEvent, stream_open, stanza, stream_close,
  XmppParser, set_attributes, on_start, on_end, on_event, run,
}

-- A document: a name, the attributes, the text in front of the first child, and the children with
-- the text behind each. A text comes in pieces.
mutual
  pub data Doc : Type 0 where
    element :
        (name : Bytes) (attributes : List (Bytes × Bytes)) (inner : List Bytes) (children : Docs)
        → Doc

  pub data Docs : Type 0 where
    no_child : Docs
    child : Doc → List Bytes → Docs → Docs

abbrev pub concat : List Bytes → Bytes
concat [] = []
concat (s ∷ texts) = s ++ concat texts

abbrev pub text_events : List Bytes → List SaxEvent → List SaxEvent
text_events [] rest = rest
text_events (s ∷ texts) rest = char_data s ∷ text_events texts rest

abbrev pub with_content : Bytes → XmlNodes → XmlNode → XmlNode
with_content text kids (node name attributes inner children tail) =
    node name attributes text kids tail

-- The events of a document, in front of other events, and the tree that it stands for.
unfoldable mutual
  pub events_of : Doc → List SaxEvent → List SaxEvent
  events_of (element name attributes inner children) rest =
      start_element name attributes
      ∷ text_events inner (children_events children (end_element ∷ rest))

  pub children_events : Docs → List SaxEvent → List SaxEvent
  children_events no_child rest = rest
  children_events (child d texts ds) rest =
      events_of d (text_events texts (children_events ds rest))

unfoldable mutual
  pub tree_of : Doc → XmlNode
  tree_of (element name attributes inner children) =
      with_content (concat inner) (trees_of children) (set_attributes attributes (make_node name))

  pub trees_of : Docs → XmlNodes
  trees_of no_child = nil
  trees_of (child d texts ds) = cons (add_to_tail (concat texts) (tree_of d)) (trees_of ds)

append_nodes : XmlNodes → XmlNodes → XmlNodes
append_nodes nil ys = ys
append_nodes (cons x xs) ys = cons x (append_nodes xs ys)

-- A node with more text in it, or with more children behind those that it has.
abbrev with_children : XmlNodes → XmlNode → XmlNode
with_children kids (node name attributes inner children tail) =
    node name attributes inner (append_nodes children kids) tail

abbrev at_level : ℕ → List XmlNode → List StreamEvent → XmppParser
at_level level nodes events = record { level = level; open_nodes = nodes; events = events }

abbrev IsLeaf : XmlNode → Type 0
IsLeaf (node name attributes inner nil tail) = Unit
IsLeaf (node name attributes inner (cons x xs) tail) = ⊥

add_to_tail-nil : (x : XmlNode) → add_to_tail [] x ≡ x
unfolding add_to_tail
add_to_tail-nil (node name attributes inner children tail) = rw (append-nil tail)

add_to_tail-append :
    (s t : Bytes) (x : XmlNode) → add_to_tail t (add_to_tail s x) ≡ add_to_tail (s ++ t) x
unfolding add_to_tail
add_to_tail-append s t (node name attributes inner children tail) = rw (append_assoc tail s t)

last-push_back :
    (s : Bytes) (x : XmlNode) (kids : XmlNodes)
    → add_to_last_tail s (push_back x kids) ≡ push_back (add_to_tail s x) kids
unfolding add_to_last_tail push_back
last-push_back s x nil = refl
last-push_back s x (cons y nil) = refl
last-push_back s x (cons y (cons z kids)) = ap (cons y) (last-push_back s x (cons z kids))

append_text-add_child :
    (s : Bytes) (x current : XmlNode)
    → append_text s (add_child x current) ≡ add_child (add_to_tail s x) current
unfolding add_child add_to_last_tail push_back
append_text-add_child s x (node name attributes inner nil tail) = refl
append_text-add_child s x (node name attributes inner (cons y kids) tail) =
    ap (λ k. node name attributes inner k tail) (last-push_back s x (cons y kids))

push_back-append_nodes :
    (x : XmlNode) (xs ys : XmlNodes)
    → append_nodes (push_back x xs) ys ≡ append_nodes xs (cons x ys)
unfolding append_nodes push_back
push_back-append_nodes x nil ys = refl
push_back-append_nodes x (cons y xs) ys = ap (cons y) (push_back-append_nodes x xs ys)

append_nodes-nil : (xs : XmlNodes) → append_nodes xs nil ≡ xs
unfolding append_nodes
append_nodes-nil nil = refl
append_nodes-nil (cons x xs) = ap (cons x) (append_nodes-nil xs)

with_children-nil : (n : XmlNode) → with_children nil n ≡ n
with_children-nil (node name attributes inner children tail) = rw (append_nodes-nil children)

with_children-cons :
    (x : XmlNode) (kids : XmlNodes) (n : XmlNode)
    → with_children kids (add_child x n) ≡ with_children (cons x kids) n
unfolding add_child
with_children-cons x kids (node name attributes inner children tail) =
    rw (push_back-append_nodes x children kids)

-- The text in front of the first child.
run-inner_text :
    (texts : List Bytes) (rest : List SaxEvent) (level : ℕ) (name : Bytes)
    (attributes : List (Bytes × Bytes)) (inner tail : Bytes) (nodes : List XmlNode)
    (events : List StreamEvent)
    → run
        (text_events texts rest)
        (at_level level (node name attributes inner nil tail ∷ nodes) events)
      ≡ run rest
          (at_level level (node name attributes (inner ++ concat texts) nil tail ∷ nodes) events)
unfolding run on_event add_to_inner
run-inner_text [] rest level name attributes inner tail nodes events = rw (append-nil inner)
run-inner_text (s ∷ texts) rest level name attributes inner tail nodes events =
    rw (sym (append_assoc inner s (concat texts)))
      (run-inner_text texts rest level name attributes (inner ++ s) tail nodes events)

-- The text behind a child that was just added.
run-tail_text :
    (texts : List Bytes) (rest : List SaxEvent) (level : ℕ) (current x : XmlNode)
    (nodes : List XmlNode) (events : List StreamEvent)
    → run (text_events texts rest) (at_level level (add_child x current ∷ nodes) events)
      ≡ run rest (at_level level (add_child (add_to_tail (concat texts) x) current ∷ nodes) events)
unfolding run on_event
run-tail_text [] rest level current x nodes events = rw (add_to_tail-nil x)
run-tail_text (s ∷ texts) rest level current x nodes events =
    rw (append_text-add_child s x current, sym (add_to_tail-append s (concat texts) x))
      (run-tail_text texts rest level current (add_to_tail s x) nodes events)

-- A new node has no children and no text.
IsNew : XmlNode → Type 0
IsNew (node name attributes inner children tail) = (inner ≡ []) × (children ≡ nil) × (tail ≡ [])

set_attributes-IsNew :
    (attributes : List (Bytes × Bytes)) (n : XmlNode)
    → IsNew n
    → IsNew (set_attributes attributes n)
unfolding set_attributes set_attribute IsNew
set_attributes-IsNew [] n h = h
set_attributes-IsNew ((a, v) ∷ attributes) (node name atts inner children tail) h =
    set_attributes-IsNew attributes (node name (put a v atts) inner children tail) h

make_node-IsNew : (name : Bytes) → IsNew (make_node name)
unfolding make_node IsNew
make_node-IsNew name = ground arith

run-inner :
    (texts : List Bytes) (rest : List SaxEvent) (level : ℕ) (new : XmlNode) (nodes : List XmlNode)
    (events : List StreamEvent)
    → IsNew new
    → run (text_events texts rest) (at_level level (new ∷ nodes) events)
      ≡ run rest (at_level level (with_content (concat texts) nil new ∷ nodes) events)
unfolding IsNew
run-inner texts rest level (node name attributes inner children tail) nodes events (i, c, t) =
    rw (i, c, t) (run-inner_text texts rest level name attributes [] [] nodes events)

content-children :
    (text : Bytes) (kids : XmlNodes) (n : XmlNode)
    → with_children kids (with_content text nil n) ≡ with_content text kids n
unfolding append_nodes
content-children text kids (node name attributes inner children tail) = refl

tree_start : Bytes → List (Bytes × Bytes) → XmlNode
tree_start name attributes = set_attributes attributes (make_node name)

tree_start-IsNew :
    (name : Bytes) (attributes : List (Bytes × Bytes)) → IsNew (tree_start name attributes)
unfolding tree_start
tree_start-IsNew name attributes =
    set_attributes-IsNew attributes (make_node name) (make_node-IsNew name)

mutual
  unfolding events_of tree_of run on_event on_start on_end tree_start

  run-events_of :
      (d : Doc) (rest : List SaxEvent) (level : ℕ) (current : XmlNode) (nodes : List XmlNode)
      (events : List StreamEvent)
      → run (events_of d rest) (at_level (suc (suc level)) (current ∷ nodes) events)
        ≡ run rest (at_level (suc (suc level)) (add_child (tree_of d) current ∷ nodes) events)
  run-events_of (element name attributes inner children) rest level current nodes events =
      let new = tree_start name attributes in
      run-inner inner (children_events children (end_element ∷ rest)) (suc (suc (suc level))) new
        (current ∷ nodes) events (tree_start-IsNew name attributes)
      ∙ run-children children (end_element ∷ rest) (suc level) (with_content (concat inner) nil new)
          (current ∷ nodes) events
      ∙ ap
          (λ n.
            run (end_element ∷ rest)
              (at_level (suc (suc (suc level))) (n ∷ current ∷ nodes) events))
          (content-children (concat inner) (trees_of children) new)

  run-children :
      (ds : Docs) (rest : List SaxEvent) (level : ℕ) (current : XmlNode) (nodes : List XmlNode)
      (events : List StreamEvent)
      → run (children_events ds rest) (at_level (suc (suc level)) (current ∷ nodes) events)
        ≡ run rest (at_level (suc (suc level)) (with_children (trees_of ds) current ∷ nodes) events)
  run-children no_child rest level current nodes events = rw (with_children-nil current)
  run-children (child d texts ds) rest level current nodes events =
      let x = add_to_tail (concat texts) (tree_of d) in
      run-events_of d (text_events texts (children_events ds rest)) level current nodes events
      ∙ run-tail_text texts (children_events ds rest) (suc (suc level)) current (tree_of d) nodes
          events
      ∙ run-children ds rest level (add_child x current) nodes events
      ∙ ap (λ n. run rest (at_level (suc (suc level)) (n ∷ nodes) events))
          (with_children-cons x (trees_of ds) current)

-- A stanza: the event is given with its tree, and the stream keeps nothing of it.
run-stanza :
    (d : Doc) (rest : List SaxEvent) (root : XmlNode) (events : List StreamEvent)
    → run (events_of d rest) (at_level 1 (root ∷ []) events)
      ≡ run rest (at_level 1 (delete_all_children root ∷ []) (events ++ stanza (tree_of d) ∷ []))
unfolding events_of tree_of run on_event on_start on_end tree_start
run-stanza (element name attributes inner children) rest root events =
    let new = tree_start name attributes in
    run-inner inner (children_events children (end_element ∷ rest)) 2 new (root ∷ []) events
      (tree_start-IsNew name attributes)
    ∙ run-children children (end_element ∷ rest) 0 (with_content (concat inner) nil new) (root ∷ [])
        events
    ∙ ap (λ n. run (end_element ∷ rest) (at_level 2 (n ∷ root ∷ []) events))
        (content-children (concat inner) (trees_of children) new)

abbrev pub stanzas_events : List Doc → List SaxEvent → List SaxEvent
stanzas_events [] rest = rest
stanzas_events (d ∷ ds) rest = events_of d (stanzas_events ds rest)

abbrev pub stanza_calls : List Doc → List StreamEvent
stanza_calls [] = []
stanza_calls (d ∷ ds) = stanza (tree_of d) ∷ stanza_calls ds

run-stanzas :
    (ds : List Doc) (rest : List SaxEvent) (root : XmlNode) (events : List StreamEvent)
    → delete_all_children root ≡ root
    → run (stanzas_events ds rest) (at_level 1 (root ∷ []) events)
      ≡ run rest (at_level 1 (root ∷ []) (events ++ stanza_calls ds))
run-stanzas [] rest root events h = rw (append-nil events)
run-stanzas (d ∷ ds) rest root events h =
    run-stanza d (stanzas_events ds rest) root events
    ∙ ap
        (λ r.
          run (stanzas_events ds rest) (at_level 1 (r ∷ []) (events ++ stanza (tree_of d) ∷ [])))
        h
    ∙ run-stanzas ds rest root (events ++ stanza (tree_of d) ∷ []) h
    ∙ ap (λ e. run rest (at_level 1 (root ∷ []) e))
        (append_assoc events (stanza (tree_of d) ∷ []) (stanza_calls ds))

delete-IsNew : (n : XmlNode) → IsNew n → delete_all_children n ≡ n
unfolding delete_all_children IsNew
delete-IsNew (node name attributes inner children tail) (i, c, t) = rw c

-- The stream of a document whose root has the stanzas as its children, with no text between them:
-- the callbacks get the opened root, each stanza as the whole tree that its part of the document
-- stands for, in order, and at the end the root; the parser is then as it was at the start.
pub run-stream :
    (name : Bytes) (attributes : List (Bytes × Bytes)) (ds : List Doc) (before : List StreamEvent)
    → let root = set_attributes attributes (make_node name) in
      run
        (start_element name attributes ∷ stanzas_events ds (end_element ∷ []))
        (record { level = 0; open_nodes = []; events = before })
      ≡ some (record {
        level = 0;
        open_nodes = [];
        events = before ++ stream_open root ∷ stanza_calls ds ++ stream_close root ∷ [];
      })
unfolding run on_event on_start on_end tree_start
run-stream name attributes ds before =
    let root = tree_start name attributes in
    run-stanzas ds (end_element ∷ []) root (before ++ stream_open root ∷ [])
      (delete-IsNew root (tree_start-IsNew name attributes))
    ∙ rw (append_assoc before (stream_open root ∷ []) (stanza_calls ds))
