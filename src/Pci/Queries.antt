-- ===== src/Pci/Queries.antt =====
-- `Type`, `GuestDriver` and `CheckGroup` of tools/internal/pci/pci.go: what is found of a device, over
-- the reads of sysfs that they make.
pub mod Laws
use vkage.Base.{
  Bool, true, false, [], ◌∷◌, Option, none, some, Bytes, codes, str_eq, if◌then◌else◌, List, Result,
  ok, err,
}
use vkage.Pci.Address.{class_type, match_driver, Peer, check_peers}

-- `match` is `path.Match`, where a pattern that it refuses is no match. A peer's driver is empty where
-- it has none. `group` is `none` for a device without the link to its group.
pub record PciReads (E : Type 0) : Type 0 where
  pub match : Bytes → Bytes → Bool
  pub class : Bytes → Result E Bytes
  pub modalias : Bytes → Result E Bytes
  pub modinfo : Result E Bytes
  pub group : Bytes → Option Bytes
  pub peers : Bytes → Result E (List Peer)

pub data QueryError (E : Type 0) : Type 0 where
  no_device no_iommu_group : Bytes → QueryError E
  wrong_class no_guest_driver : Bytes → Bytes → QueryError E
  read_failed : E → QueryError E
  shared_with : Bytes → Peer → QueryError E

-- A text that is not empty, or the error.
found : {E : Type 0} → QueryError E → Bytes → Result (QueryError E) Bytes
found e [] = err e
found e (b ∷ s) = ok (b ∷ s)

found_class : {E : Type 0} → Bytes → Result E Bytes → Result (QueryError E) Bytes
unfolding found
found_class addr (err e) = err (no_device addr)
found_class addr (ok class) = found (wrong_class addr class) (class_type class)

module _ {E : Type 0} (r : PciReads E) where
  -- `Type`.
  unfoldable pub device_type : Bytes → Result (QueryError E) Bytes
  unfolding found_class
  device_type addr = found_class addr (r.class addr)

  matched : Bytes → Bytes → Result E Bytes → Result (QueryError E) Bytes
  unfolding found
  matched addr alias (err e) = err (read_failed e)
  matched addr alias (ok modinfo) =
      found (no_guest_driver addr alias) (match_driver r.match alias modinfo)

  unfoldable pub guest_driver : Bytes → Result (QueryError E) Bytes
  unfolding matched
  guest_driver addr = elim (r.modalias addr) [
    | err e ↦ err (no_device addr)
    | ok alias ↦ matched addr alias r.modinfo
  ]

  checked_peers : Bytes → Bytes → Result E (List Peer) → Option (QueryError E)
  checked_peers addr group (err e) = some (read_failed e)
  checked_peers addr group (ok peers) = elim (check_peers addr peers) [
    | none ↦ none
    | some p ↦ some (shared_with group p)
  ]

  unfoldable pub check_group : Bytes → Option (QueryError E)
  unfolding checked_peers
  check_group addr = elim (r.group addr) [
    | none ↦ some (no_iommu_group addr)
    | some group ↦ checked_peers addr group (r.peers group)
  ]
