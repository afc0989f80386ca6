-- ===== src/Bridge/Waiting/Trigger.antt =====
-- What the closures of `waiting_irc` (bridge/bridge.cpp) send.
use biboumi.Base.{
  ℕ, Bool, true, false, Option, none, some, lookup, eq_bytes, lt_bytes, bytes_eq, codes, List, [],
  ◌∷◌, ◌++◌, ◌≡◌, refl, ◌⊎◌, inl, inr, if◌then◌else◌, Bytes,
}
use biboumi.Irc.Iid.{Iid}
use biboumi.Irc.Message.{IrcMessage}
use biboumi.Xmpp.Node.{get_tag, add_child, set_attribute, make_node}
use biboumi.World.{
  ok, thrown, fault, XmppCall, stanza_error, iq_result, iq_result_full_jid, version_result, stanza,
}
use biboumi.Bridge.ChannelList.{
  ChannelList, ResultSetInfo, Page, not_yet, range, bad_range, room_list_result,
}
use biboumi.Bridge.Waiting.{
  Waiting, Responder, role_change, kick_answer, ping_answer, version_answer, fill_list, list_answer,
  Answer, wait, reply, and_done, on_role_change, on_kick_answer, on_ping_answer, on_version_answer,
  on_fill_list, on_list_answer, send_page, send_matching_channel_list, respond,
}

abbrev pub calls : Waiting → List XmppCall
calls s = s.world.bridge.calls

-- The id of the request that a closure waits for, and who made it; a list is filled for nobody.
unfoldable pub asked : Responder → Option (Bytes × Bytes)
asked (role_change iid from nick id) = some (id, from)
asked (kick_answer target iq_id to_jid iid) = some (iq_id, to_jid)
asked (ping_answer nick iq_id to_jid irc_hostname from_jid) = some (iq_id, to_jid)
asked (version_answer target iq_id to_jid irc_hostname from_jid) = some (iq_id, to_jid)
asked (fill_list iid) = none
asked (list_answer iid iq_id to_jid rs) = some (iq_id, to_jid)

-- The id of an answer, and who gets it.
unfoldable pub answered : XmppCall → Option (Bytes × Bytes)
unfolding get_tag
answered (stanza_error kind to from id type condition text fulljid) = some (id, to)
answered (iq_result id to from) = some (id, to)
answered (iq_result_full_jid id to from) = some (id, to)
answered (version_result id to from version) = some (id, to)
answered (stanza n) = some (get_tag (codes "id") n, get_tag (codes "to") n)
answered call = none

unfoldable pub IsAnswerTo : Responder → XmppCall → Type 0
IsAnswerTo r call =
    (request : Bytes × Bytes) × (asked r ≡ some request) × (answered call ≡ some request)

-- A closure sends nothing, or it sends one answer to its request and is done.
unfoldable pub IsOneAnswer : Responder → Waiting → Answer → Type 0
IsOneAnswer r s (ok (s', is_done)) =
    (calls s' ≡ calls s)
    ⊎ ((call : XmppCall) × (calls s' ≡ calls s ++ call ∷ []) × (is_done ≡ true) × IsAnswerTo r call)
IsOneAnswer r s (thrown w) = Unit
IsOneAnswer r s (fault e) = Unit

wait-IsOneAnswer : (r : Responder) (s : Waiting) → IsOneAnswer r s (wait s)
unfolding IsOneAnswer
wait-IsOneAnswer r s = inl refl

reply-IsOneAnswer :
    (r : Responder) (call : XmppCall) (s : Waiting)
    → IsAnswerTo r call
    → IsOneAnswer r s (reply call s)
unfolding IsOneAnswer
reply-IsOneAnswer r call s h = inr (call, refl, refl, h)

same-IsOneAnswer :
    (r : Responder) (s s' : Waiting) (b : Bool) → calls s' ≡ calls s → IsOneAnswer r s (ok (s', b))
unfolding IsOneAnswer
same-IsOneAnswer r s s' b e = inl e

if-IsOneAnswer :
    (r : Responder) (s : Waiting) (b : Bool) (x y : Answer)
    → IsOneAnswer r s x
    → IsOneAnswer r s y
    → IsOneAnswer r s (if b then x else y)
if-IsOneAnswer r s true x y p q = p
if-IsOneAnswer r s false x y p q = q

answers :
    (r : Responder) (call : XmppCall) (request : Bytes × Bytes)
    → asked r ≡ some request
    → answered call ≡ some request
    → IsAnswerTo r call
unfolding IsAnswerTo
answers r call request e f = (request, e, f)

stanza_error-IsOneAnswer :
    (r : Responder) (kind to from id type condition text : Bytes) (fulljid : Bool) (s : Waiting)
    → asked r ≡ some (id, to)
    → IsOneAnswer r s (reply (stanza_error kind to from id type condition text fulljid) s)
unfolding answered
stanza_error-IsOneAnswer r kind to from id type condition text fulljid s e =
    reply-IsOneAnswer r _ s (answers r _ (id, to) e refl)

iq_result-IsOneAnswer :
    (r : Responder) (id to from : Bytes) (s : Waiting)
    → asked r ≡ some (id, to)
    → IsOneAnswer r s (reply (iq_result id to from) s)
unfolding answered
iq_result-IsOneAnswer r id to from s e = reply-IsOneAnswer r _ s (answers r _ (id, to) e refl)

iq_result_full_jid-IsOneAnswer :
    (r : Responder) (id to from : Bytes) (s : Waiting)
    → asked r ≡ some (id, to)
    → IsOneAnswer r s (reply (iq_result_full_jid id to from) s)
unfolding answered
iq_result_full_jid-IsOneAnswer r id to from s e =
    reply-IsOneAnswer r _ s (answers r _ (id, to) e refl)

version_result-IsOneAnswer :
    (r : Responder) (id to from version : Bytes) (s : Waiting)
    → asked r ≡ some (id, to)
    → IsOneAnswer r s (reply (version_result id to from version) s)
unfolding answered
version_result-IsOneAnswer r id to from version s e =
    reply-IsOneAnswer r _ s (answers r _ (id, to) e refl)

ruleset one_answer_rules = (
  if-IsOneAnswer, wait-IsOneAnswer, same-IsOneAnswer, stanza_error-IsOneAnswer,
  iq_result-IsOneAnswer, iq_result_full_jid-IsOneAnswer, version_result-IsOneAnswer,
)

on_role_change-IsOneAnswer :
    (iid : Iid) (from nick id : Bytes) (irc_hostname : Bytes) (m : IrcMessage) (s : Waiting)
    → IsOneAnswer
        (role_change iid from nick id)
        s
        (on_role_change iid from nick id irc_hostname m s)
unfolding on_role_change asked answered
on_role_change-IsOneAnswer iid from nick id irc_hostname m s = search one_answer_rules depth 16

on_kick_answer-IsOneAnswer :
    (target iq_id to_jid : Bytes) (iid : Iid) (irc_hostname : Bytes) (m : IrcMessage) (s : Waiting)
    → IsOneAnswer
        (kick_answer target iq_id to_jid iid)
        s
        (on_kick_answer target iq_id to_jid iid irc_hostname m s)
unfolding on_kick_answer asked answered
on_kick_answer-IsOneAnswer target iq_id to_jid iid irc_hostname m s =
    search one_answer_rules depth 16

on_ping_answer-IsOneAnswer :
    (nick iq_id to_jid irc from_jid : Bytes) (irc_hostname : Bytes) (m : IrcMessage) (s : Waiting)
    → IsOneAnswer
        (ping_answer nick iq_id to_jid irc from_jid)
        s
        (on_ping_answer nick iq_id to_jid irc from_jid irc_hostname m s)
unfolding on_ping_answer asked answered
on_ping_answer-IsOneAnswer nick iq_id to_jid irc from_jid irc_hostname m s =
    search one_answer_rules depth 16

on_version_answer-IsOneAnswer :
    (target iq_id to_jid irc from_jid : Bytes) (irc_hostname : Bytes) (m : IrcMessage) (s : Waiting)
    → IsOneAnswer
        (version_answer target iq_id to_jid irc from_jid)
        s
        (on_version_answer target iq_id to_jid irc from_jid irc_hostname m s)
unfolding on_version_answer asked answered
on_version_answer-IsOneAnswer target iq_id to_jid irc from_jid irc_hostname m s =
    search one_answer_rules depth 16

on_fill_list-IsOneAnswer :
    (iid : Iid) (irc_hostname : Bytes) (m : IrcMessage) (s : Waiting)
    → IsOneAnswer (fill_list iid) s (on_fill_list iid irc_hostname m s)
unfolding on_fill_list asked answered
on_fill_list-IsOneAnswer iid irc_hostname m s = search one_answer_rules depth 16

room_list_result-answered :
    (host id to_jid from : Bytes) (list : ChannelList) (begin end : ℕ) (rs : ResultSetInfo)
    → answered (stanza (room_list_result host id to_jid from list begin end rs)) ≡ some (id, to_jid)
unfolding answered room_list_result get_tag lookup eq_bytes add_child set_attribute make_node
    lt_bytes
room_list_result-answered host id to_jid from list begin end rs = refl

send_page-IsOneAnswer :
    (iid : Iid) (page : Page) (list : ChannelList) (rs : ResultSetInfo) (id to_jid from : Bytes)
    (s : Waiting)
    → IsOneAnswer (list_answer iid id to_jid rs) s (send_page page list rs id to_jid from s)
unfolding send_page IsOneAnswer asked
send_page-IsOneAnswer iid not_yet list rs id to_jid from s = inl refl
send_page-IsOneAnswer iid bad_range list rs id to_jid from s = tt
send_page-IsOneAnswer iid (range begin end) list rs id to_jid from s = reply-IsOneAnswer _ _ s (
    answers (list_answer iid id to_jid rs) _ (id, to_jid) refl
      (room_list_result-answered s.world.bridge.served_hostname id to_jid from list begin end rs))

done-IsOneAnswer :
    (r : Responder) (s : Waiting) (a : Answer) → IsOneAnswer r s a → IsOneAnswer r s (and_done a)
unfolding IsOneAnswer
done-IsOneAnswer r s (ok (s', b)) (inl e) = inl e
done-IsOneAnswer r s (ok (s', b)) (inr (call, e, d, h)) = inr (call, e, refl, h)
done-IsOneAnswer r s (thrown w) h = tt
done-IsOneAnswer r s (fault e) h = tt

on_list_answer-IsOneAnswer :
    (iid : Iid) (iq_id to_jid : Bytes) (rs : ResultSetInfo) (irc_hostname : Bytes) (m : IrcMessage)
    (s : Waiting)
    → IsOneAnswer
        (list_answer iid iq_id to_jid rs)
        s
        (on_list_answer iid iq_id to_jid rs irc_hostname m s)
unfolding on_list_answer send_matching_channel_list asked answered
on_list_answer-IsOneAnswer iid iq_id to_jid rs irc_hostname m s =
    search (one_answer_rules, send_page-IsOneAnswer, done-IsOneAnswer) depth 16

-- At each message a closure sends nothing, or it sends one answer to its request and is done.
pub respond-IsOneAnswer :
    (r : Responder) (irc_hostname : Bytes) (m : IrcMessage) (s : Waiting)
    → IsOneAnswer r s (respond r irc_hostname m s)
unfolding respond
respond-IsOneAnswer (role_change iid from nick id) h m s =
    on_role_change-IsOneAnswer iid from nick id h m s
respond-IsOneAnswer (kick_answer t i j iid) h m s = on_kick_answer-IsOneAnswer t i j iid h m s
respond-IsOneAnswer (ping_answer n i j irc f) h m s = on_ping_answer-IsOneAnswer n i j irc f h m s
respond-IsOneAnswer (version_answer n i j irc f) h m s =
    on_version_answer-IsOneAnswer n i j irc f h m s
respond-IsOneAnswer (fill_list iid) h m s = on_fill_list-IsOneAnswer iid h m s
respond-IsOneAnswer (list_answer iid i j rs) h m s = on_list_answer-IsOneAnswer iid i j rs h m s
