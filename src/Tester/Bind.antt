-- ===== src/Tester/Bind.antt =====
-- `cmdBind` and `cmdUnbind` of tools/cmd/invirtio-test/devices.go, behind `pciArg`, for one device.
-- What they print on success is left out.
pub mod Holders
pub mod Laws
use vkage.Base.{
  Bool, true, false, not, ◌||◌, List, [], ◌∷◌, ◌++◌, Option, none, some, Bytes, codes, str_eq,
  if◌then◌else◌, Result, ok, err,
}
use vkage.Pci.Bind.{PciHost, PciError, vfio_pci, bind_vfio, bind_native}

-- What the commands read of the host; `group` is the device's IOMMU group, `links` what the open
-- files of the processes link to, with the process, in the order they are found.
pub record BindReads (h : PciHost) : Type 0 where
  pub is_root : Bool
  pub in_use : h.World → List Bytes
  pub group : h.World → Result h.Fault Bytes
  pub links : h.World → List (Bytes × Bytes)

pub data BindError (Fault : Type 0) : Type 0 where
  in_use_by : List Bytes → BindError Fault
  not_root : BindError Fault
  no_group : Fault → BindError Fault
  pci_failed : PciError Fault → BindError Fault
  held_by : Bytes → List Bytes → BindError Fault
  no_driver : BindError Fault

-- `seen[pid]`, by the processes so far.
unfoldable pub seen : Bytes → List Bytes → Bool
seen p [] = false
seen p (q ∷ qs) = let rest = seen p qs in str_eq p q || rest

-- The processes that hold a node open, each once; `pids` are those so far.
holders_onto : Bytes → List (Bytes × Bytes) → List Bytes → List Bytes
unfolding seen
holders_onto node [] pids = pids
holders_onto node ((pid, target) ∷ ls) pids =
    let more = holders_onto node ls (pids ++ pid ∷ []) in
    let same = holders_onto node ls pids in
    if str_eq target node then if seen pid pids then same else more else same

-- `groupHolders`.
unfoldable pub group_holders : Bytes → List (Bytes × Bytes) → List Bytes
unfolding holders_onto
group_holders group links = holders_onto (codes "/dev/vfio/" ++ group) links []

module _ (h : PciHost) (r : BindReads h) where
  open h use {World, Fault, driver}

  abbrev pub Outcome : Type 0
  Outcome = Option (BindError Fault) × World

  pub of_pci : Option (PciError Fault) × World → Outcome
  of_pci (none, w) = (none, w)
  of_pci (some e, w) = (some (pci_failed e), w)

  -- An error of the group's check is only printed, and a device that is on vfio-pci is left.
  pub bind_group : Result Fault Bytes → World → Outcome
  unfolding of_pci
  bind_group (err e) w = (some (no_group e), w)
  bind_group (ok group) w = if str_eq (driver w) vfio_pci then (none, w) else of_pci (bind_vfio h w)

  pub bind_unused : List Bytes → World → Outcome
  unfolding bind_group
  bind_unused (u ∷ us) w = (some (in_use_by (u ∷ us)), w)
  bind_unused [] w = if r.is_root then bind_group (r.group w) w else (some not_root, w)

  unfoldable pub cmd_bind : World → Outcome
  unfolding bind_unused
  cmd_bind w = bind_unused (r.in_use w) w

  pub bound_native : Option (PciError Fault) × World → Outcome
  bound_native (some e, w) = (some (pci_failed e), w)
  bound_native (none, w) = if str_eq (driver w) [] then (some no_driver, w) else (none, w)

  pub unbind_free : Bytes → List Bytes → World → Outcome
  unfolding bound_native
  unbind_free group (p ∷ ps) w = (some (held_by group (p ∷ ps)), w)
  unbind_free group [] w = bound_native (bind_native h w)

  -- A device whose group cannot be read is not checked for holders.
  pub unbind_group : Result Fault Bytes → World → Outcome
  unfolding unbind_free bound_native group_holders
  unbind_group (err e) w = bound_native (bind_native h w)
  unbind_group (ok group) w = unbind_free group (group_holders group (r.links w)) w

  unfoldable pub cmd_unbind : World → Outcome
  unfolding unbind_group
  cmd_unbind w =
      if r.is_root
      then if str_eq (driver w) [] || str_eq (driver w) vfio_pci
        then unbind_group (r.group w) w
        else (none, w)
      else (some not_root, w)
