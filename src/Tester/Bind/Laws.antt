-- ===== src/Tester/Bind/Laws.antt =====
-- What binding a device to vfio-pci and taking it back do on every path.
use vkage.Base.{
  ◌≡◌, ◌≢◌, refl, sym, ◌∙◌, ◌⊎◌, inl, inr, true, false, ◌||◌, List, [], ◌∷◌, ◌++◌, Option, none,
  some, Bytes, codes, str_eq, str_eq_iff, Bool-cases, arith, Result, ok, err,
}
use vkage.Pci.Bind.{PciHost, PciError, vfio_pci, bind_vfio, bind_native}
use vkage.Pci.Bind.Laws.{bind_vfio_ok}
use vkage.Pci.InUse.{Block, BlockReads, behind, in_use}
use vkage.Pci.InUse.Laws.{Among, first, later, Holds, in_use-filled}
use vkage.Tester.Bind.{
  BindReads, in_use_by, held_by, of_pci, bind_group, bind_unused, cmd_bind, bound_native,
  unbind_free, unbind_group, cmd_unbind, group_holders,
}
use vkage.Tester.Bind.Holders.{group_holders_iff}

module _ (h : PciHost) (r : BindReads h) where
  bind_unused_refuses :
      (us : List Bytes) (w : h.World) → us ≢ [] → bind_unused h r us w ≡ (some (in_use_by us), w)
  unfolding bind_unused
  bind_unused_refuses [] w ne = absurd (ne refl)
  bind_unused_refuses (u ∷ us) w ne = refl

  -- A device behind which there is a disk with a mount or active swap, among the disks of the host,
  -- is refused, and nothing of the host is changed.
  pub cmd_bind_refuses :
      (blocks : h.World → BlockReads) (addr : Bytes) (w : h.World) (b : Block)
      → r.in_use w ≡ in_use (blocks w) addr
      → Among b (blocks w).blocks
      → behind addr b.device ≡ true
      → Holds (blocks w) b.name
      → cmd_bind h r w ≡ (some (in_use_by (r.in_use w)), w)
  unfolding cmd_bind
  cmd_bind_refuses blocks addr w b reads m e holds =
      bind_unused_refuses (r.in_use w) w
        (λ n. in_use-filled (blocks w) addr b m e holds (sym reads ∙ n))

  of_pci_same : (o : Option (PciError h.Fault) × h.World) → (of_pci h r o).1 ≡ o.1
  unfolding of_pci
  of_pci_same (none, w) = refl
  of_pci_same (some e, w) = refl

  of_pci_ok : (o : Option (PciError h.Fault) × h.World) → (of_pci h r o).0 ≡ none → o.0 ≡ none
  unfolding of_pci
  of_pci_ok (none, w) e = refl
  of_pci_ok (some e, w) f = absurd (cc f)

  bind_group_ok :
      (g : Result h.Fault Bytes) (w : h.World)
      → (bind_group h r g w).0 ≡ none
      → h.driver (bind_group h r g w).1 ≡ vfio_pci
  unfolding bind_group
  bind_group_ok (err e) w f = absurd (cc f)
  bind_group_ok (ok g) w f = elim (Bool-cases (str_eq (h.driver w) vfio_pci)) [
    | inl on ↦ rw on ((str_eq_iff (h.driver w) vfio_pci).0 on)
    | inr off ↦
        rw (off, of_pci_same (bind_vfio h w))
          ((bind_vfio_ok h w (of_pci_ok (bind_vfio h w) (rw off at f))).0)
  ]

  bind_unused_ok :
      (us : List Bytes) (w : h.World)
      → (bind_unused h r us w).0 ≡ none
      → (us ≡ []) × (r.is_root ≡ true) × (h.driver (bind_unused h r us w).1 ≡ vfio_pci)
  unfolding bind_unused
  bind_unused_ok (u ∷ us) w f = absurd (cc f)
  bind_unused_ok [] w f = elim (Bool-cases r.is_root) [
    | inl root ↦ rw root (refl, refl, bind_group_ok (r.group w) w (rw root at f))
    | inr user ↦ absurd (cc (rw user at f))
  ]

  -- Where `bind` reports no error, nothing used the device, root ran it, and the device is on vfio-pci.
  pub cmd_bind_ok :
      (w : h.World)
      → (cmd_bind h r w).0 ≡ none
      → (r.in_use w ≡ []) × (r.is_root ≡ true) × (h.driver (cmd_bind h r w).1 ≡ vfio_pci)
  unfolding cmd_bind
  cmd_bind_ok w f = bind_unused_ok (r.in_use w) w f

  unbind_free_refuses :
      (g q : Bytes) (ps : List Bytes) (w : h.World)
      → Among q ps
      → unbind_free h r g ps w ≡ (some (held_by g ps), w)
  unfolding unbind_free
  unbind_free_refuses g q _ w (first ps) = refl
  unbind_free_refuses g q _ w (later p ps m) = refl

  -- Where a process holds the node of the group of a device that is on vfio-pci or on no driver,
  -- `unbind`, which root runs, names the processes that do and leaves the host as it is.
  pub cmd_unbind_refuses :
      (w : h.World) (g q : Bytes)
      → r.is_root ≡ true
      → (h.driver w ≡ []) ⊎ (h.driver w ≡ vfio_pci)
      → r.group w ≡ ok g
      → Among (q, codes "/dev/vfio/" ++ g) (r.links w)
      → cmd_unbind h r w ≡ (some (held_by g (group_holders g (r.links w))), w)
  unfolding cmd_unbind unbind_group
  cmd_unbind_refuses w g q root on e m =
      let ours : str_eq (h.driver w) [] || str_eq (h.driver w) vfio_pci ≡ true =
        ground (arith, str_eq_iff (h.driver w) [], str_eq_iff (h.driver w) vfio_pci) in
      let held = (group_holders_iff g q (r.links w)).0.1 m in
      rw (root, ours, e) (unbind_free_refuses g q (group_holders g (r.links w)) w held)

  bound_native_ok :
      (o : Option (PciError h.Fault) × h.World)
      → (bound_native h r o).0 ≡ none
      → h.driver (bound_native h r o).1 ≢ []
  unfolding bound_native
  bound_native_ok (some e, w) f = absurd (cc f)
  bound_native_ok (none, w) f = ground (arith, str_eq_iff (h.driver w) [])

  unbind_free_ok :
      (g : Bytes) (ps : List Bytes) (w : h.World)
      → (unbind_free h r g ps w).0 ≡ none
      → h.driver (unbind_free h r g ps w).1 ≢ []
  unfolding unbind_free
  unbind_free_ok g [] w f = bound_native_ok (bind_native h w) f
  unbind_free_ok g (p ∷ ps) w f = absurd (cc f)

  unbind_group_ok :
      (g : Result h.Fault Bytes) (w : h.World)
      → (unbind_group h r g w).0 ≡ none
      → h.driver (unbind_group h r g w).1 ≢ []
  unfolding unbind_group
  unbind_group_ok (err e) w f = bound_native_ok (bind_native h w) f
  unbind_group_ok (ok g) w f = unbind_free_ok g (group_holders g (r.links w)) w f

  driver_cases :
      (w : h.World)
      → str_eq (h.driver w) [] || str_eq (h.driver w) vfio_pci ≡ true
      → (h.driver w ≡ []) ⊎ (h.driver w ≡ vfio_pci)
  driver_cases w e = elim (Bool-cases (str_eq (h.driver w) [])) [
    | inl bare ↦ inl ((str_eq_iff (h.driver w) []).0 bare)
    | inr full ↦ inr ((str_eq_iff (h.driver w) vfio_pci).0 (rw full at e))
  ]

  apart :
      (w : h.World)
      → str_eq (h.driver w) [] || str_eq (h.driver w) vfio_pci ≡ false
      → h.driver w ≢ []
  apart w e bare = absurd (cc (rw ((str_eq_iff (h.driver w) []).1 bare) at e))

  -- Where `unbind` reports no error, the device has a driver, which is the one it had if that was not
  -- vfio-pci: a driver other than vfio-pci is never taken from it.
  pub cmd_unbind_ok :
      (w : h.World)
      → (cmd_unbind h r w).0 ≡ none
      → (h.driver (cmd_unbind h r w).1 ≢ [])
        × (((h.driver w ≡ []) ⊎ (h.driver w ≡ vfio_pci)) ⊎ ((cmd_unbind h r w).1 ≡ w))
  unfolding cmd_unbind
  cmd_unbind_ok w f = elim (Bool-cases r.is_root) [
    | inr user ↦ absurd (cc (rw user at f))
    | inl root ↦ elim (Bool-cases (str_eq (h.driver w) [] || str_eq (h.driver w) vfio_pci)) [
      | inl ours ↦
          rw (root, ours)
            (unbind_group_ok (r.group w) w (rw (root, ours) at f), inl (driver_cases w ours))
      | inr other ↦ rw (root, other) (apart w other, inr refl)
    ]
  ]
