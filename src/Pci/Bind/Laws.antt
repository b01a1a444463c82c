-- ===== src/Pci/Bind/Laws.antt =====
-- What the kernel documents of a device's driver, its override and probing, and what binding a
-- device to vfio-pci then does on every path.
use vkage.Base.{◌≡◌, ◌⊎◌, none, Bytes, str_eq_iff, arith, []}
use vkage.Pci.Bind.{PciHost, vfio_pci, and_then, probe_vfio, unbound, bind_vfio}

-- `override` is the device's override. Loading vfio-pci binds at most to it; writing the override
-- moves no device, and sets it if it succeeds; unbinding leaves the device as it is or without a
-- driver; a probe binds a device without a driver at most to its override, if it has one.
pub record PciLaws (h : PciHost) : Type 0 where
  pub override : h.World → Bytes
  pub load_driver :
      (w : h.World)
      → (h.driver (h.load_vfio w).1 ≡ h.driver w) ⊎ (h.driver (h.load_vfio w).1 ≡ vfio_pci)
  pub override_driver : (v : Bytes) (w : h.World) → h.driver (h.write_override v w).1 ≡ h.driver w
  pub override_written :
      (v : Bytes) (w : h.World)
      → (h.write_override v w).0 ≡ none
      → override (h.write_override v w).1 ≡ v
  pub unbind_driver :
      (w : h.World) → (h.driver (h.unbind w).1 ≡ h.driver w) ⊎ (h.driver (h.unbind w).1 ≡ [])
  pub unbind_override : (w : h.World) → override (h.unbind w).1 ≡ override w
  pub probe_override : (w : h.World) → override (h.probe w).1 ≡ override w
  pub probe_driver :
      (w : h.World)
      → override w ≡ vfio_pci
      → (h.driver (h.probe w).1 ≡ h.driver w) ⊎ (h.driver (h.probe w).1 ≡ vfio_pci)

module _ (h : PciHost) (laws : PciLaws h) where
  -- The driver is as it was, or there is none and the override keeps others away, or it is vfio-pci.
  abbrev pub IsMoved : Bytes → h.World → Type 0
  IsMoved drv w =
      (h.driver w ≡ drv)
      ⊎ ((h.driver w ≡ []) × (laws.override w ≡ vfio_pci))
      ⊎ (h.driver w ≡ vfio_pci)

  probe_vfio-IsMoved :
      (drv : Bytes) (w : h.World)
      → IsMoved drv w
      → laws.override w ≡ vfio_pci
      → IsMoved drv (probe_vfio h w).1
  unfolding probe_vfio
  probe_vfio-IsMoved drv w m o = ground (arith, laws.probe_driver w, laws.probe_override w)

  unbound-IsMoved :
      (drv : Bytes) (w : h.World)
      → IsMoved drv w
      → laws.override w ≡ vfio_pci
      → IsMoved drv (unbound h w (probe_vfio h)).1
  unfolding unbound and_then
  unbound-IsMoved drv w m o = ground (
    arith,
    laws.unbind_driver w,
    laws.unbind_override w,
    probe_vfio-IsMoved drv w,
    probe_vfio-IsMoved drv (h.unbind w).1,
  )

  -- On every path, also where a step fails, a device is left on its driver, or on vfio-pci, or on no
  -- driver but with the override at vfio-pci, so that no probe takes it back to its own driver.
  pub bind_vfio-IsMoved : (w : h.World) → IsMoved (h.driver w) (bind_vfio h w).1
  unfolding bind_vfio and_then
  bind_vfio-IsMoved w =
      let w1 = (h.load_vfio w).1 in
      let w2 = (h.write_override vfio_pci w1).1 in
      ground (
        arith,
        laws.load_driver w,
        laws.override_driver vfio_pci w1,
        laws.override_written vfio_pci w1,
        unbound-IsMoved (h.driver w) w2,
      )

probe_vfio_ok :
    (h : PciHost) (w : h.World) → (probe_vfio h w).0 ≡ none → h.driver (probe_vfio h w).1 ≡ vfio_pci
unfolding probe_vfio
probe_vfio_ok h w ok = ground (arith, str_eq_iff (h.driver (h.probe w).1) vfio_pci)

-- If `BindVFIO` reports no error, the device is on vfio-pci, and another call does nothing.
pub bind_vfio_ok :
    (h : PciHost) (w : h.World)
    → (bind_vfio h w).0 ≡ none
    → (h.driver (bind_vfio h w).1 ≡ vfio_pci)
      × (bind_vfio h (bind_vfio h w).1 ≡ (none, (bind_vfio h w).1))
unfolding bind_vfio and_then unbound
bind_vfio_ok h w ok =
    let w2 = (h.write_override vfio_pci (h.load_vfio w).1).1 in
    let on : h.driver (bind_vfio h w).1 ≡ vfio_pci = ground (
      arith,
      str_eq_iff (h.driver w) vfio_pci,
      probe_vfio_ok h w2,
      probe_vfio_ok h (h.unbind w2).1,
    ) in
    (on, ground (arith, str_eq_iff (h.driver (bind_vfio h w).1) vfio_pci, on))
