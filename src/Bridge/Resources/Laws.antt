-- ===== src/Bridge/Resources/Laws.antt =====
-- What the operations on the maps of resources promise.
use biboumi.Base.{
  ◌≡◌, refl, arith, Bool, true, false, not, ◌&&◌, ◌||◌, Option, none, some, List, [], ◌∷◌,
  if◌then◌else◌, Bytes, eq_bytes, bytes_eq, pair_eq, lookup, insert, erase, contains, set_insert,
  set_erase, lookup-insert, lookup-erase, contains-set_insert, contains-set_erase, Option-cases,
  Bool-cases, inl, inr, Eq, eq_pair_iff, sym,
}
use biboumi.Bridge.Resources.{
  add_resource_to_chan, remove_resource_from_chan, is_resource_in_chan, or_empty, put_or_erase,
  remove_all_resources_from_chan,
}
use biboumi.World.{Bridge}

abbrev pub same_chan : Bytes × Bytes → Bytes × Bytes → Bool
same_chan = Eq.beq pair_eq

in_entry : Bytes → Option (List Bytes) → Bool
in_entry r o = contains r (or_empty o)

is_resource_in_chan-entry :
    (channel : Bytes × Bytes) (r : Bytes) (b : Bridge)
    → is_resource_in_chan channel r b ≡ in_entry r (lookup channel b.resources_in_chan)
unfolding is_resource_in_chan contains in_entry
is_resource_in_chan-entry channel r b = elim (Option-cases (lookup channel b.resources_in_chan)) [
  | inl missing ↦ rw (missing, is_resource_in_chan) refl
  | inr (rs, found) ↦ rw (found, is_resource_in_chan) refl
]

-- The map where one entry was replaced: the elements of the new entry are known by a law that
-- compares them with the old one.
replaced :
    (channel other : Bytes × Bytes) (r : Bytes) (v : List Bytes)
    (m : List ((Bytes × Bytes) × List Bytes))
    → in_entry r (lookup other (insert channel v m))
      ≡ (if same_chan channel other then contains r v else in_entry r (lookup other m))
unfolding in_entry contains
replaced channel other r v m =
    rw (lookup-insert channel other v m) (elim (Bool-cases (same_chan channel other)) [
      | inl same ↦ rw (same, in_entry) refl
      | inr differ ↦ rw (differ, in_entry) refl
    ])

erased :
    (channel other : Bytes × Bytes) (r : Bytes) (m : List ((Bytes × Bytes) × List Bytes))
    → in_entry r (lookup other (erase channel m))
      ≡ (if same_chan channel other then false else in_entry r (lookup other m))
unfolding in_entry contains
erased channel other r m =
    rw (lookup-erase channel other m) (elim (Bool-cases (same_chan channel other)) [
      | inl same ↦ rw (same, in_entry) refl
      | inr differ ↦ rw (differ, in_entry) refl
    ])

put_or_erase_lem :
    (channel other : Bytes × Bytes) (r : Bytes) (v : List Bytes)
    (m : List ((Bytes × Bytes) × List Bytes))
    → in_entry r (lookup other (put_or_erase channel v m))
      ≡ (if same_chan channel other then contains r v else in_entry r (lookup other m))
unfolding contains
put_or_erase_lem channel other r [] m = erased channel other r m
put_or_erase_lem channel other r (x ∷ v) m = replaced channel other r (x ∷ v) m

same_entry :
    (channel other : Bytes × Bytes) (o : Option (List Bytes)) (r : Bytes)
    (m : List ((Bytes × Bytes) × List Bytes))
    → lookup channel m ≡ o
    → same_chan channel other ≡ true
    → in_entry r (lookup other m) ≡ in_entry r o
same_entry channel other o r m e same = rw (sym ((eq_pair_iff channel other).0 same)) (rw e refl)

-- After a resource was added to a channel, it is in that channel, and nothing else changed: a
-- resource is in a channel if it is the one that was added, or it was there before.
pub is_resource_in_chan-add_resource_to_chan :
    (channel other : Bytes × Bytes) (resource r : Bytes) (b : Bridge)
    → is_resource_in_chan other r (add_resource_to_chan channel resource b)
      ≡ ((same_chan channel other && eq_bytes resource r) || is_resource_in_chan other r b)
unfolding add_resource_to_chan contains in_entry
is_resource_in_chan-add_resource_to_chan channel other resource r b =
    rw (is_resource_in_chan-entry other r b) (
      rw (is_resource_in_chan-entry other r (add_resource_to_chan channel resource b))
        (elim (Option-cases (lookup channel b.resources_in_chan)) [
          | inl missing ↦
              rw (missing, add_resource_to_chan)
                (rw (replaced channel other r (resource ∷ []) b.resources_in_chan) (
                  let l = same_entry channel other none r b.resources_in_chan missing in
                  ground arith))
          | inr (rs, found) ↦
              rw (found, add_resource_to_chan)
                (rw (replaced channel other r (set_insert resource rs) b.resources_in_chan) (
                  rw (contains-set_insert resource r rs) (
                    let l = same_entry channel other (some rs) r b.resources_in_chan found in
                    ground arith)))
        ]))

is_resource_in_chan-remove :
    (channel other : Bytes × Bytes) (resource r : Bytes) (b : Bridge)
    → is_resource_in_chan other r (remove_resource_from_chan channel resource b)
      ≡ (not (same_chan channel other && eq_bytes resource r) && is_resource_in_chan other r b)
unfolding remove_resource_from_chan contains in_entry
is_resource_in_chan-remove channel other resource r b = rw (is_resource_in_chan-entry other r b) (
    rw (is_resource_in_chan-entry other r (remove_resource_from_chan channel resource b))
      (elim (Option-cases (lookup channel b.resources_in_chan)) [
        | inl missing ↦
            rw (missing, remove_resource_from_chan)
              (let l = same_entry channel other none r b.resources_in_chan missing in ground arith)
        | inr (rs, found) ↦
            rw (found, remove_resource_from_chan)
              (rw (put_or_erase_lem channel other r (set_erase resource rs) b.resources_in_chan) (
                rw (contains-set_erase resource r rs) (
                  let l = same_entry channel other (some rs) r b.resources_in_chan found in
                  ground arith)))
      ]))

-- All of a bridge but the map of the resources in channels.
pub record IsSameElsewhere (b b' : Bridge) : Type 0 where
  user : b'.user_jid ≡ b.user_jid
  host : b'.served_hostname ≡ b.served_hostname
  fixed : b'.fixed_irc_server ≡ b.fixed_irc_server
  servers : b'.resources_in_server ≡ b.resources_in_server
  calls : b'.calls ≡ b.calls

remove_resource-IsSameElsewhere :
    (channel : Bytes × Bytes) (resource : Bytes) (b : Bridge)
    → IsSameElsewhere b (remove_resource_from_chan channel resource b)
unfolding remove_resource_from_chan
remove_resource-IsSameElsewhere channel resource b =
    elim (Option-cases (lookup channel b.resources_in_chan)) [
      | inl missing ↦
          rw (missing, remove_resource_from_chan)
            (record { user = refl; host = refl; fixed = refl; servers = refl; calls = refl })
      | inr (rs, found) ↦
          rw (found, remove_resource_from_chan)
            (record { user = refl; host = refl; fixed = refl; servers = refl; calls = refl })
    ]

-- After a resource was removed from a channel, it is not in it. Every other resource is in the
-- channels in which it was, and so is this one in other channels. The resources of the servers,
-- what the XMPP component was asked for and the rest of the bridge are as before.
pub is_resource_in_chan-remove_resource_from_chan :
    (channel other : Bytes × Bytes) (resource r : Bytes) (b : Bridge)
    → (is_resource_in_chan other r (remove_resource_from_chan channel resource b)
        ≡ (not (same_chan channel other && eq_bytes resource r) && is_resource_in_chan other r b))
      × IsSameElsewhere b (remove_resource_from_chan channel resource b)
is_resource_in_chan-remove_resource_from_chan channel other resource r b = (
  is_resource_in_chan-remove channel other resource r b,
  remove_resource-IsSameElsewhere channel resource b,
)

-- After a channel was forgotten, no resource is in it, and nothing else changed.
pub is_resource_in_chan-remove_all :
    (channel other : Bytes × Bytes) (r : Bytes) (b : Bridge)
    → is_resource_in_chan other r (remove_all_resources_from_chan channel b)
      ≡ (not (same_chan channel other) && is_resource_in_chan other r b)
unfolding remove_all_resources_from_chan
is_resource_in_chan-remove_all channel other r b = rw (is_resource_in_chan-entry other r b) (
    rw (is_resource_in_chan-entry other r (remove_all_resources_from_chan channel b))
      (rw (erased channel other r b.resources_in_chan) (ground arith)))
