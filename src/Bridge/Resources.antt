-- ===== src/Bridge/Resources.antt =====
-- The maps of resources of src/bridge/bridge.cpp.
pub mod Laws
use biboumi.Base.{
  ℕ, zero, suc, ◌+◌, Bool, true, false, not, ◌&&◌, ◌||◌, Option, none, some, List, [], ◌∷◌, ◌==◌,
  if◌then◌else◌, Bytes, eq_bytes, bytes_eq, pair_eq, length, lookup, insert, erase, contains,
  set_insert, set_erase,
}
use biboumi.World.{Bridge}

-- `this->resources_in_chan[channel]`, which is empty where there is no entry.
abbrev pub or_empty : Option (List Bytes) → List Bytes
or_empty none = []
or_empty (some resources) = resources

unfoldable pub resources_of_chan : Bytes × Bytes → Bridge → List Bytes
resources_of_chan channel b = or_empty (lookup channel b.resources_in_chan)

unfoldable pub resources_of_server : Bytes → Bridge → List Bytes
resources_of_server irc_hostname b = or_empty (lookup irc_hostname b.resources_in_server)

unfoldable pub add_resource_to_chan : Bytes × Bytes → Bytes → Bridge → Bridge
add_resource_to_chan channel resource b = elim (lookup channel b.resources_in_chan) [
  | none ↦ record b { resources_in_chan = insert channel (resource ∷ []) b.resources_in_chan }
  | some resources ↦ record b {
    resources_in_chan = insert channel (set_insert resource resources) b.resources_in_chan;
  }
]

-- An entry that became empty is erased.
abbrev pub put_or_erase :
    Bytes × Bytes
    → List Bytes
    → List ((Bytes × Bytes) × List Bytes)
    → List ((Bytes × Bytes) × List Bytes)
put_or_erase channel [] m = erase channel m
put_or_erase channel (r ∷ rs) m = insert channel (r ∷ rs) m

unfoldable pub remove_resource_from_chan : Bytes × Bytes → Bytes → Bridge → Bridge
remove_resource_from_chan channel resource b = elim (lookup channel b.resources_in_chan) [
  | none ↦ b
  | some resources ↦ record b {
    resources_in_chan = put_or_erase channel (set_erase resource resources) b.resources_in_chan;
  }
]

unfoldable pub is_resource_in_chan : Bytes × Bytes → Bytes → Bridge → Bool
is_resource_in_chan channel resource b = elim (lookup channel b.resources_in_chan) [
  | none ↦ false
  | some resources ↦ contains resource resources
]

unfoldable pub remove_all_resources_from_chan : Bytes × Bytes → Bridge → Bridge
remove_all_resources_from_chan channel b = record b {
  resources_in_chan = erase channel b.resources_in_chan;
}

unfoldable pub add_resource_to_server : Bytes → Bytes → Bridge → Bridge
add_resource_to_server irc_hostname resource b = elim (lookup irc_hostname b.resources_in_server) [
  | none ↦ record b {
    resources_in_server = insert irc_hostname (resource ∷ []) b.resources_in_server;
  }
  | some resources ↦ record b {
    resources_in_server = insert irc_hostname (set_insert resource resources) b.resources_in_server;
  }
]

abbrev put_or_erase_server :
    Bytes → List Bytes → List (Bytes × List Bytes) → List (Bytes × List Bytes)
put_or_erase_server irc_hostname [] m = erase irc_hostname m
put_or_erase_server irc_hostname (r ∷ rs) m = insert irc_hostname (r ∷ rs) m

unfoldable pub remove_resource_from_server : Bytes → Bytes → Bridge → Bridge
remove_resource_from_server irc_hostname resource b =
    elim (lookup irc_hostname b.resources_in_server) [
      | none ↦ b
      | some resources ↦ record b {
        resources_in_server =
            put_or_erase_server irc_hostname (set_erase resource resources) b.resources_in_server;
      }
    ]

unfoldable pub number_of_resources_in_chan : Bytes × Bytes → Bridge → ℕ
number_of_resources_in_chan channel b = elim (lookup channel b.resources_in_chan) [
  | none ↦ 0
  | some resources ↦ length resources
]

unfoldable pub count_channels : Bytes → Bytes → List ((Bytes × Bytes) × List Bytes) → ℕ
count_channels irc_hostname resource [] = 0
count_channels irc_hostname resource (((chan, host), resources) ∷ m) =
    (if eq_bytes host irc_hostname && contains resource resources then 1 else 0)
    + count_channels irc_hostname resource m

unfoldable pub number_of_channels_the_resource_is_in : Bytes → Bytes → Bridge → ℕ
unfolding count_channels
number_of_channels_the_resource_is_in irc_hostname resource b =
    count_channels irc_hostname resource b.resources_in_chan

-- The loop behind a leave: each resource that is in no channel of the server any more leaves the
-- server.
unfoldable pub leave_server_if_unused : Bytes → List Bytes → Bridge → Bridge
leave_server_if_unused irc_hostname [] b = b
leave_server_if_unused irc_hostname (r ∷ resources) b =
    leave_server_if_unused irc_hostname resources (
      if number_of_channels_the_resource_is_in irc_hostname r b == 0
      then remove_resource_from_server irc_hostname r b
      else b)
