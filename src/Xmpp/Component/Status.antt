-- ===== src/Xmpp/Component/Status.antt =====
-- What a client reads in the presences of src/xmpp/xmpp_component.cpp: whether they are about its
-- own user, which the status 110 says.
use biboumi.Base.{
  Bool, true, false, ◌||◌, Option, none, some, List, [], ◌∷◌, Bytes, codes, eq_bytes, lookup, ◌≡◌,
  refl, All,
}
use biboumi.Xmpp.Node.{XmlNode, get_tag, get_child, get_children, find_children}
use biboumi.Xmpp.Component.{
  user_join_as, user_join_stanza, nick_change_stanzas, muc_leave_stanza, nick_change_stanza,
  kick_user_stanza, affiliation_role_change_stanza,
}

abbrev has_code : Bytes → List XmlNode → Bool
has_code code [] = false
has_code code (status ∷ rest) = eq_bytes (get_tag (codes "code") status) code || has_code code rest

abbrev has_status_in : Bytes → Option XmlNode → Bool
has_status_in code none = false
has_status_in code (some x) = has_code code (get_children (codes "status") [] x)

-- Whether a presence has that status code in its `x` of a user of a room.
unfoldable pub has_status : Bytes → XmlNode → Bool
unfolding get_child get_children find_children get_tag
has_status code presence =
    has_status_in code
      (get_child (codes "x") (codes "http://jabber.org/protocol/muc#user") presence)

nick_change_status :
    (host from old nick affiliation role to : Bytes) (self : Bool)
    → has_status (codes "110") (nick_change_stanza host from old nick affiliation role to self)
      ≡ self
unfolding has_status eq_bytes lookup nick_change_stanza
nick_change_status host from old nick affiliation role to false = refl
nick_change_status host from old nick affiliation role to true = refl

kick_user_status :
    (host from target text author to : Bytes) (self : Bool)
    → has_status (codes "110") (kick_user_stanza host from target text author to self) ≡ self
unfolding has_status eq_bytes lookup kick_user_stanza
kick_user_status host from target text author to false = refl
kick_user_status host from target text author to true = refl

muc_leave_status :
    (host from nick message to : Bytes) (self requested : Bool) (affiliation role : Bytes)
    → has_status
        (codes "110")
        (muc_leave_stanza host from nick message to self requested affiliation role)
      ≡ self
unfolding has_status eq_bytes lookup muc_leave_stanza
muc_leave_status host from nick [] to false r affiliation role = refl
muc_leave_status host from nick (_ ∷ _) to false r affiliation role = refl
muc_leave_status host from nick [] to true false affiliation role = refl
muc_leave_status host from nick (_ ∷ _) to true false affiliation role = refl
muc_leave_status host from nick [] to true true affiliation role = refl
muc_leave_status host from nick (_ ∷ _) to true true affiliation role = refl

affiliation_role_change_status :
    (host from target affiliation role to : Bytes)
    → has_status (codes "110") (affiliation_role_change_stanza host from target affiliation role to)
      ≡ false
unfolding has_status eq_bytes lookup affiliation_role_change_stanza
affiliation_role_change_status host from target affiliation role to = refl

user_join_as_status :
    (host from nick jid affiliation role to : Bytes) (self : Bool)
    → has_status (codes "110") (user_join_as host from nick jid affiliation role to self) ≡ self
unfolding has_status eq_bytes lookup user_join_as
user_join_as_status host from nick [] [] [] to false = refl
user_join_as_status host from nick [] [] [] to true = refl
user_join_as_status host from nick [] [] (_ ∷ _) to false = refl
user_join_as_status host from nick [] [] (_ ∷ _) to true = refl
user_join_as_status host from nick [] (_ ∷ _) [] to false = refl
user_join_as_status host from nick [] (_ ∷ _) [] to true = refl
user_join_as_status host from nick [] (_ ∷ _) (_ ∷ _) to false = refl
user_join_as_status host from nick [] (_ ∷ _) (_ ∷ _) to true = refl
user_join_as_status host from nick (_ ∷ _) [] [] to false = refl
user_join_as_status host from nick (_ ∷ _) [] [] to true = refl
user_join_as_status host from nick (_ ∷ _) [] (_ ∷ _) to false = refl
user_join_as_status host from nick (_ ∷ _) [] (_ ∷ _) to true = refl
user_join_as_status host from nick (_ ∷ _) (_ ∷ _) [] to false = refl
user_join_as_status host from nick (_ ∷ _) (_ ∷ _) [] to true = refl
user_join_as_status host from nick (_ ∷ _) (_ ∷ _) (_ ∷ _) to false = refl
user_join_as_status host from nick (_ ∷ _) (_ ∷ _) (_ ∷ _) to true = refl

-- The presences of a join, of a leave, of a kick and of a change of nick, which are two, have the
-- status 110 if they go to the user that they are about, and only then; one of a change of
-- affiliation or role never has it.
pub has_status-presences :
    (host : Bytes) (prep : Bytes → Bytes)
    (from nick new_nick realjid text author affiliation role to : Bytes) (self requested : Bool)
    → All
        (λ presence. has_status (codes "110") presence ≡ self)
        (user_join_stanza host prep from nick realjid affiliation role to self
          ∷ muc_leave_stanza host from nick text to self requested affiliation role
          ∷ kick_user_stanza host from nick text author to self
          ∷ nick_change_stanzas host prep from nick new_nick affiliation role to self)
      × has_status (codes "110") (affiliation_role_change_stanza host from nick affiliation role to)
        ≡ false
unfolding user_join_stanza nick_change_stanzas
has_status-presences host prep from nick new_nick realjid text author affiliation role to self
      requested =
    (
      (
        user_join_as_status host from nick _ affiliation role to self,
        (
          muc_leave_status host from nick text to self requested affiliation role,
          (
            kick_user_status host from nick text author to self,
            (
              nick_change_status host from nick new_nick affiliation role to self,
              (user_join_as_status host from new_nick [] affiliation role to self, tt),
            ),
          ),
        ),
      ),
      affiliation_role_change_status host from nick affiliation role to,
    )
