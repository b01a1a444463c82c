-- ===== src/Tester/Platform.antt =====
-- `cmdPlatformBind` and `cmdPlatformUnbind` of tools/cmd/invirtio-test/devices.go, behind
-- `platformArg`, for one device. What they print on success is left out.
pub mod Laws
pub mod Refusals
mod Tests
use vkage.Base.{
  Bool, true, false, not, ◌&&◌, ◌||◌, ◌-◌, List, [], ◌∷◌, ◌++◌, map, Option, none, some, Bytes,
  codes, lower, str_eq, length, drop, if◌then◌else◌, Result, ok, err,
}
use vkage.Pci.Address.{contains}
use vkage.Tester.Bind.{group_holders}

-- What the commands use of the host. `usb` is what `usbAttached` finds, `reset_required` the
-- parameter of the loaded module, nothing where it is not loaded, `bound` the devices that are on
-- vfio-platform. `none` is a nil error. Errors of `load_type1` are ignored.
pub record PlatformHost : Type 1 where
  pub World : Type 0
  pub Fault : Type 0
  pub is_root : Bool
  pub usb : World → List Bytes
  pub group : World → Option Bytes
  pub driver : World → Bytes
  pub links : World → List (Bytes × Bytes)
  pub reset_required : World → Bytes
  pub bound : World → List Bytes
  pub kernel_log : World → List Bytes
  pub unload : World → Option Fault × World
  pub load_type1 : World → World
  pub load : Bytes → World → Option Fault × World
  pub write_override : Bytes → World → Option Fault × World
  pub unbind : World → Option Fault × World
  pub probe : World → Option Fault × World

pub data PlatformError (Fault : Type 0) : Type 0 where
  in_use_by : List Bytes → PlatformError Fault
  not_root : PlatformError Fault
  no_group : PlatformError Fault
  devices_bound : Bytes → PlatformError Fault
  failed : Fault → PlatformError Fault
  -- The driver, lines of the kernel's log, and whether -no-reset is suggested.
  binding_failed : Bytes → List Bytes → Bool → PlatformError Fault
  held_by : Bytes → List Bytes → PlatformError Fault
  no_driver : PlatformError Fault

abbrev pub vfio_platform : Bytes
vfio_platform = codes "vfio-platform"

-- The module's parameter as it is read, and as it is given.
abbrev pub wanted : Bool → Bytes
wanted no_reset = if no_reset then codes "N" else codes "Y"

abbrev pub setting : Bool → Bytes
setting no_reset = if no_reset then codes "0" else codes "1"

-- The lines that mention vfio.
unfoldable pub vfio_lines : List Bytes → List Bytes
unfolding contains
vfio_lines [] = []
vfio_lines (l ∷ ls) =
    let rest = vfio_lines ls in if contains (map lower l) (codes "vfio") then l ∷ rest else rest

module _ (h : PlatformHost) where
  open h use {World, Fault, driver}

  abbrev pub Outcome : Type 0
  Outcome = Option (PlatformError Fault) × World

  -- A call whose error ends the command, and what follows it.
  pub and_then : Option Fault × World → (World → Outcome) → Outcome
  and_then (none, w) next = next w
  and_then (some e, w) next = (some (failed e), w)

  -- The probe, of which an error is ignored.
  pub probe_platform : Bool → World → Outcome
  unfolding vfio_lines
  probe_platform no_reset w =
      let w' = (h.probe w).1 in
      let lines = vfio_lines (h.kernel_log w') in
      if str_eq (driver w') vfio_platform
      then (none, w')
      else (some (binding_failed (driver w') (drop (length lines - 3) lines) (not no_reset)), w')

  -- The device's driver, as it was at the start, is unbound.
  pub unbind_from : Bytes → (World → Outcome) → World → Outcome
  unfolding and_then
  unbind_from [] next w = next w
  unbind_from (b ∷ s) next w = and_then (h.unbind w) next

  pub load_and_bind : Bool → Bytes → World → Outcome
  unfolding and_then probe_platform unbind_from
  load_and_bind no_reset cur w = and_then (h.load (setting no_reset) (h.load_type1 w)) (λ w1.
      and_then (h.write_override vfio_platform w1) (unbind_from cur (probe_platform no_reset)))

  -- The module is unloaded where it has the other setting and no devices.
  pub reload : Bool → Bytes → List Bytes → World → Outcome
  unfolding load_and_bind and_then
  reload no_reset cur (d ∷ ds) w = (some (devices_bound (h.reset_required w)), w)
  reload no_reset cur [] w = and_then (h.unload w) (load_and_bind no_reset cur)

  pub bind_group : Bool → Option Bytes → World → Outcome
  unfolding reload load_and_bind
  bind_group no_reset none w = (some no_group, w)
  bind_group no_reset (some group) w =
      let have = h.reset_required w in
      if str_eq (driver w) vfio_platform
      then (none, w)
      else if str_eq have [] || str_eq have (wanted no_reset)
      then load_and_bind no_reset (driver w) w
      else reload no_reset (driver w) (h.bound w) w

  pub bind_unused : Bool → List Bytes → World → Outcome
  unfolding bind_group
  bind_unused no_reset (u ∷ us) w = (some (in_use_by (u ∷ us)), w)
  bind_unused no_reset [] w =
      if h.is_root then bind_group no_reset (h.group w) w else (some not_root, w)

  unfoldable pub platform_bind : Bool → World → Outcome
  unfolding bind_unused
  platform_bind no_reset w = bind_unused no_reset (h.usb w) w

  pub probe_native : World → Outcome
  probe_native w =
      let w' = (h.probe w).1 in if str_eq (driver w') [] then (some no_driver, w') else (none, w')

  pub give_back : World → Outcome
  unfolding and_then unbind_from probe_native
  give_back w = and_then (h.write_override (b'\n' ∷ []) w) (unbind_from (driver w) probe_native)

  pub unbind_free : Bytes → List Bytes → World → Outcome
  unfolding give_back
  unbind_free group (p ∷ ps) w = (some (held_by group (p ∷ ps)), w)
  unbind_free group [] w = give_back w

  pub unbind_group : Option Bytes → World → Outcome
  unfolding unbind_free group_holders
  unbind_group none w = give_back w
  unbind_group (some group) w = unbind_free group (group_holders group (h.links w)) w

  unfoldable pub platform_unbind : World → Outcome
  unfolding unbind_group
  platform_unbind w =
      if h.is_root
      then if str_eq (driver w) [] || str_eq (driver w) vfio_platform
        then unbind_group (h.group w) w
        else (none, w)
      else (some not_root, w)
