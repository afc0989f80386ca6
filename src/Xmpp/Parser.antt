-- ===== src/Xmpp/Parser.antt =====
-- src/xmpp/xmpp_parser.cpp, without Expat: what its handlers do with the events that it reports.
pub mod Documents
use biboumi.Base.{
  ℕ, zero, suc, ◌+◌, ◌-◌, Bool, true, false, Option, none, some, List, [], ◌∷◌, ◌++◌, ◌==◌,
  if◌then◌else◌, Bytes,
}
use biboumi.Xmpp.Node.{
  XmlNode, node, nil, cons, make_node, set_attribute, add_child, delete_all_children, has_children,
  append_text,
}

-- What Expat calls: `start_element`, `end_element` and `char_data`.
pub data SaxEvent : Type 0 where
  start_element : (name : Bytes) (attributes : List (Bytes × Bytes)) → SaxEvent
  end_element : SaxEvent
  char_data : (text : Bytes) → SaxEvent

-- The calls of the callbacks.
pub data StreamEvent : Type 0 where
  stream_open stanza stream_close : XmlNode → StreamEvent

-- The nodes that are open, the deepest first: the first is `current_node`, and the last is `root`.
-- A node becomes a child of the one below it when it is closed; until then nothing looks for it
-- there.
pub record XmppParser : Type 0 where
  pub level : ℕ
  pub open_nodes : List XmlNode
  pub events : List StreamEvent

unfoldable pub reset : XmppParser → XmppParser
reset p = record p { level = 0; open_nodes = [] }

unfoldable pub set_attributes : List (Bytes × Bytes) → XmlNode → XmlNode
set_attributes [] n = n
set_attributes ((name, value) ∷ attributes) n =
    set_attributes attributes (set_attribute name value n)

-- `this->level == 1`, where `n` is the level before it was incremented.
abbrev opened_event : ℕ → XmlNode → List StreamEvent → List StreamEvent
opened_event zero n events = events ++ stream_open n ∷ []
opened_event (suc level) n events = events

unfoldable pub on_start : Bytes → List (Bytes × Bytes) → XmppParser → XmppParser
unfolding set_attributes
on_start name attributes p =
    let new_node = set_attributes attributes (make_node name) in
    record p {
      level = suc p.level;
      open_nodes = new_node ∷ p.open_nodes;
      events = opened_event p.level new_node p.events;
    }

-- `none` is undefined behaviour: a null pointer is read.
on_end_at : ℕ → List XmlNode → List StreamEvent → Option XmppParser
on_end_at level [] events = none
on_end_at zero (current ∷ rest) events =
    some (record { level = 0; open_nodes = []; events = events ++ stream_close current ∷ [] })
on_end_at (suc level) (current ∷ []) events = none
on_end_at (suc zero) (current ∷ parent ∷ rest) events = some (record {
  level = 1;
  open_nodes = delete_all_children parent ∷ rest;
  events = events ++ stanza current ∷ [];
})
on_end_at (suc (suc level)) (current ∷ parent ∷ rest) events = some (record {
  level = suc (suc level);
  open_nodes = add_child current parent ∷ rest;
  events = events;
})

-- Expat reports no end that has no start, so the level is not 0.
abbrev decremented : ℕ → ℕ
decremented zero = zero
decremented (suc level) = level

unfoldable pub on_end : XmppParser → Option XmppParser
unfolding on_end_at
on_end p = on_end_at (decremented p.level) p.open_nodes p.events

on_text_at : Bytes → List XmlNode → Option (List XmlNode)
on_text_at text [] = none
on_text_at text (current ∷ rest) = some (append_text text current ∷ rest)

unfoldable pub on_text : Bytes → XmppParser → Option XmppParser
unfolding on_text_at
on_text text p = elim (on_text_at text p.open_nodes) [
  | none ↦ none
  | some nodes ↦ some (record p { open_nodes = nodes })
]

unfoldable pub on_event : SaxEvent → XmppParser → Option XmppParser
unfolding on_start on_end on_text
on_event (start_element name attributes) p = some (on_start name attributes p)
on_event end_element p = on_end p
on_event (char_data text) p = on_text text p

unfoldable pub run : List SaxEvent → XmppParser → Option XmppParser
run [] p = some p
run (event ∷ events) p = elim (on_event event p) [ none ↦ none | some p' ↦ run events p' ]
