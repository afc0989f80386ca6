-- ===== src/Bridge/Requests/Leaving.antt =====
-- Which resources are in which channel after `leave_irc_channel` (bridge/bridge.cpp).
use biboumi.Base.{Bool, not, ◌&&◌, ◌≡◌, ◌==◌, if◌then◌else◌, Bytes, eq_bytes}
use biboumi.Irc.Iid.{Iid, to_tuple}
use biboumi.Bridge.Resources.{is_resource_in_chan, number_of_resources_in_chan}
use biboumi.Bridge.Resources.Laws.{same_chan}
use biboumi.World.{Bridge, World, Outcome, ok, thrown, fault}

module _ (key : Bytes × Bytes) (r : Bytes) where
  abbrev is_in : World → Bool
  is_in w = is_resource_in_chan key r w.bridge

  -- Whether the resource is in the channel afterwards, where the code returns.
  pub IsThere : Bool → Outcome World → Type 0
  IsThere b (ok w) = is_in w ≡ b
  IsThere b (thrown w) = Unit
  IsThere b (fault e) = Unit

  -- The resource that leaves is out, if another one stays.
  pub stays : Iid → Bytes → Bridge → Bool
  stays iid resource b =
      if number_of_resources_in_chan (to_tuple iid) b == 1
      then is_resource_in_chan key r b
      else not (same_chan (to_tuple iid) key && eq_bytes resource r) && is_resource_in_chan key r b
