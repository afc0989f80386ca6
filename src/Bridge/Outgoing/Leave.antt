-- ===== src/Bridge/Outgoing/Leave.antt =====
-- What is left of a channel once the user has left it.
use biboumi.Base.{
  ◌≡◌, refl, arith, Bool, true, not, ◌&&◌, List, [], ◌∷◌, ◌==◌, Bytes, Bool-cases, inl, inr, ◌∙◌,
  ap,
}
use biboumi.Irc.Iid.{Iid, to_tuple}
use biboumi.Irc.User.{IrcUser}
use biboumi.Bridge.Resources.{
  is_resource_in_chan, leave_server_if_unused, remove_resource_from_server, resources_of_chan,
  remove_all_resources_from_chan, number_of_channels_the_resource_is_in,
}
use biboumi.Bridge.Resources.Laws.{is_resource_in_chan-remove_all, same_chan}
use biboumi.Bridge.Outgoing.{emit_all, leave_call, forget_chan, quit_if_unused, send_muc_leave}
use biboumi.Client.Send.{
  send_irc_message, send_quit_command, actual_send, run_callback, send_data, enqueue,
}
use biboumi.World.{Bridge, World, XmppCall, emit}

-- Whether a resource is in a channel depends on one map of the bridge.
abbrev pub chans_of : World → List ((Bytes × Bytes) × List Bytes)
chans_of w = w.bridge.resources_in_chan

pub chans-is_resource_in_chan :
    (channel : Bytes × Bytes) (r : Bytes) (b b' : Bridge)
    → b.resources_in_chan ≡ b'.resources_in_chan
    → is_resource_in_chan channel r b ≡ is_resource_in_chan channel r b'
unfolding is_resource_in_chan
chans-is_resource_in_chan channel r b b' e = rw e

chans-emit_all :
    (call : Bytes → XmppCall) (resources : List Bytes) (w : World)
    → chans_of (emit_all call resources w) ≡ chans_of w
unfolding emit_all
chans-emit_all call [] w = refl
chans-emit_all call (r ∷ rs) w = chans-emit_all call rs (emit _ w)

pub chans-remove_resource_from_server :
    (hostname r : Bytes) (b : Bridge)
    → (remove_resource_from_server hostname r b).resources_in_chan ≡ b.resources_in_chan
unfolding remove_resource_from_server
chans-remove_resource_from_server hostname r b = ground arith

chans-leave_server :
    (hostname : Bytes) (rs : List Bytes) (b : Bridge)
    → (leave_server_if_unused hostname rs b).resources_in_chan ≡ b.resources_in_chan
unfolding leave_server_if_unused
chans-leave_server hostname [] b = refl
chans-leave_server hostname (r ∷ rs) b =
    chans-leave_server hostname rs _
    ∙ elim (Bool-cases (number_of_channels_the_resource_is_in hostname r b == 0)) [
      | inl unused ↦ rw unused (chans-remove_resource_from_server hostname r b)
      | inr used ↦ rw used
    ]

pub chans-quit_if_unused :
    (iid : Iid) (self : Bool) (w : World) → chans_of (quit_if_unused iid self w) ≡ chans_of w
unfolding quit_if_unused send_quit_command send_irc_message actual_send run_callback send_data
    enqueue
chans-quit_if_unused iid self w = ground arith

-- Once the user has left a channel, none of their resources is in it, and the resources in every
-- other channel are the ones that were there.
pub send_muc_leave-forgets :
    (iid : Iid) (user : IrcUser) (message : Bytes) (user_requested : Bool) (w : World)
    (other : Bytes × Bytes) (r : Bytes)
    → is_resource_in_chan other r (send_muc_leave iid user message true user_requested w).bridge
      ≡ (not (same_chan (to_tuple iid) other) && is_resource_in_chan other r w.bridge)
unfolding send_muc_leave forget_chan
send_muc_leave-forgets iid user message user_requested w other r =
    let rs = resources_of_chan (to_tuple iid) w.bridge in
    let told = emit_all (leave_call w iid user message true user_requested) rs w in
    let left = remove_all_resources_from_chan (to_tuple iid) told.bridge in
    chans-is_resource_in_chan other r _ left
      (chans-quit_if_unused iid true _ ∙ chans-leave_server iid.server_name _ left)
    ∙ is_resource_in_chan-remove_all (to_tuple iid) other r told.bridge
    ∙ ap (λ b. not (same_chan (to_tuple iid) other) && b)
        (chans-is_resource_in_chan other r told.bridge w.bridge (chans-emit_all _ rs w))
