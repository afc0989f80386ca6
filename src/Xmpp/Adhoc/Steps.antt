-- ===== src/Xmpp/Adhoc/Steps.antt =====
-- The steps of src/xmpp/adhoc_command.cpp. The nodes of a step are added to their parents when they
-- go out of scope, the last one first. `Reload` also has `reload_process` run, which is the
-- component's.
use biboumi.Base.{Option, none, some, List, [], ◌∷◌, ◌++◌, if◌then◌else◌, Bytes, codes, eq_bytes}
use biboumi.Xmpp.Node.{
  XmlNode, make_node, make_node_ns, set_attribute, set_inner, get_inner, get_tag, add_child,
  get_child, get_children, delete_all_children,
}
use biboumi.Xmpp.Adhoc.{AdhocSession, add_error, terminate}

pub data BasicStep : Type 0 where
  ping_step1 hello_step1 hello_step2 reload : BasicStep

abbrev data_form : Bytes
data_form = codes "jabber:x:data"

abbrev pub info_note : Bytes → XmlNode
info_note text =
    set_inner text (set_attribute (codes "type") (codes "info") (make_node (codes "note")))

abbrev name_form_field : XmlNode
name_form_field = add_child (make_node (codes "required")) (
    set_attribute (codes "label") (codes "Your name") (
      set_attribute (codes "type") (codes "text-single")
        (set_attribute (codes "var") (codes "name") (make_node (codes "field")))))

unfoldable pub hello_form : XmlNode
hello_form = add_child (set_inner (codes "Configure your name.") (make_node (codes "title"))) (
    add_child (set_inner (codes "Please provide your name.") (make_node (codes "instructions"))) (
      add_child name_form_field
        (set_attribute (codes "type") (codes "form") (make_node_ns data_form (codes "x")))))

infixl 5 ◌>>=◌
abbrev ◌>>=◌ : {A B : Type 0} → Option A → (A → Option B) → Option B
none >>= f = none
some a >>= f = f a

-- The first field whose `var` is the one given.
unfoldable pub find_field : Bytes → List XmlNode → Option XmlNode
find_field var [] = none
find_field var (field ∷ fields) =
    if eq_bytes (get_tag (codes "var") field) var then some field else find_field var fields

-- The name that a submitted form provides.
unfoldable pub provided_name : XmlNode → Option Bytes
unfolding find_field
provided_name answer = do
  x ← get_child (codes "x") data_form answer
  field ← find_field (codes "name") (get_children (codes "field") data_form x)
  value ← get_child (codes "value") data_form field
  some (get_inner value)

module _ {Step : Type 0} where
  unfoldable pub hello_answer : AdhocSession Step → XmlNode → AdhocSession Step × XmlNode
  unfolding provided_name terminate add_error
  hello_answer session answer = elim (provided_name answer) [
    | some name ↦ (
      session,
      add_child (info_note (codes "Hello " ++ name ++ codes "!")) (delete_all_children answer),
    )
    | none ↦ (
      terminate session,
      add_error (codes "modify") (codes "bad-request") (delete_all_children answer),
    )
  ]

  unfoldable pub execute_basic :
      {C : Type 0}
      → (C → C)
      → BasicStep
      → C
      → AdhocSession Step
      → XmlNode
      → C × AdhocSession Step × XmlNode
  unfolding hello_form hello_answer
  execute_basic reload_process ping_step1 component session answer =
      (component, session, add_child (info_note (codes "Pong")) answer)
  execute_basic reload_process hello_step1 component session answer =
      (component, session, add_child hello_form answer)
  execute_basic reload_process hello_step2 component session answer =
      let (s, a) = hello_answer session answer in (component, s, a)
  execute_basic reload_process reload component session answer = (
    reload_process component,
    session,
    add_child (info_note (codes "Configuration reloaded.")) (delete_all_children answer),
  )
