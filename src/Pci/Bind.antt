-- ===== src/Pci/Bind.antt =====
-- `BindVFIO` and `BindNative` of tools/internal/pci/pci.go, for one device over an interface of the
-- host's files and of modprobe. `none` is a nil error.
pub mod Laws
use vkage.Base.{
  Bool, true, false, not, Option, none, some, Bytes, codes, str_eq, if◌then◌else◌, [], ◌∷◌,
}

-- The driver's text is empty where the device has none. `write_override` is given what is written.
pub record PciHost : Type 1 where
  pub World : Type 0
  pub Fault : Type 0
  pub driver : World → Bytes
  pub load_vfio : World → Option Fault × World
  pub write_override : Bytes → World → Option Fault × World
  pub unbind : World → Option Fault × World
  pub probe : World → Option Fault × World

pub data PciError (Fault : Type 0) : Type 0 where
  fault : Fault → PciError Fault
  cannot_load : Fault → PciError Fault
  binding_failed : Bytes → PciError Fault

abbrev pub vfio_pci : Bytes
vfio_pci = codes "vfio-pci"

module _ (h : PciHost) where
  open h use {World, Fault, driver, load_vfio, write_override, unbind, probe}

  abbrev pub Outcome : Type 0
  Outcome = Option (PciError Fault) × World

  -- A call whose error ends the function, and what follows it.
  and_then : (Fault → PciError Fault) → Option Fault × World → (World → Outcome) → Outcome
  and_then wrap (none, w) next = next w
  and_then wrap (some e, w) next = (some (wrap e), w)

  -- The probe's error is ignored.
  probe_vfio : World → Outcome
  probe_vfio w =
      let w' = (probe w).1 in
      if str_eq (driver w') vfio_pci then (none, w') else (some (binding_failed (driver w')), w')

  -- A device that has a driver is unbound before `next`.
  unbound : World → (World → Outcome) → Outcome
  unfolding and_then
  unbound w next = if str_eq (driver w) [] then next w else and_then fault (unbind w) next

  unfoldable pub bind_vfio : World → Outcome
  unfolding and_then probe_vfio unbound
  bind_vfio w =
      if str_eq (driver w) vfio_pci
      then (none, w)
      else and_then cannot_load (load_vfio w)
          (λ w1. and_then fault (write_override vfio_pci w1) (λ w2. unbound w2 probe_vfio))

  unfoldable pub bind_native : World → Outcome
  unfolding and_then unbound
  bind_native w =
      and_then fault (write_override (b'\n' ∷ []) w)
        (λ w1. unbound w1 (λ w2. and_then fault (probe w2) (λ w3. (none, w3))))
