-- ===== src/Devices/Disable.antt =====
-- `disableStages`, `disablePlan` and `cmdDisable` of tools/cmd/invirtio/devices.go.
pub mod Key
pub mod Order
pub mod Rules
use vkage.Base.{
  ℕ, zero, suc, Bool, true, false, not, ◌&&◌, ◌||◌, List, [], ◌∷◌, ◌++◌, map, Option, none, some,
  Bytes, codes, lower, str_eq, if◌then◌else◌,
}
use vkage.Base.{Result, ok, err}
use vkage.Host.{Host, vdpa_host, pci_path}
use vkage.Vdpa.{Errno, busy, other, remove, destroy}
use vkage.Plan.Stages.{Action, Stage}
use vkage.Plan.Quote.{show_cmd}
use vkage.Plan.Actions.{cmd_action, sysfs_action}
use vkage.Pci.Address.{normalize_address}
use vkage.Config.Devices.{Config, Entry, Device}
use vkage.Config.Order.{sorted}
use vkage.Run.Launch.{log_dir, log_path}
use vkage.Devices.Udev.{
  DeviceError, fault, vdpa, errno, lifted, remove_action, udev_actions, config_action,
}

abbrev pub unit_path : Bytes
unit_path = codes "/etc/systemd/system/invirtio@.service"

abbrev pub unit_of : Bytes → Bytes
unit_of name = codes "invirtio@" ++ (name ++ codes ".service")

-- `delete(cfg.Devices, name)`.
unfoldable pub without : Bytes → Config → Config
without name [] = []
without name (e ∷ es) = let rest = without name es in if str_eq e.name name then rest else e ∷ rest

module _ (h : Host) where
  open h use {World, Fault}

  abbrev pub Outcome : Type 0
  Outcome = Option (DeviceError Fault) × World

  -- The case of `systemctl disable` that failed: the unit's file can be gone.
  pub disable_failed : Bytes → Fault → World → Outcome
  disable_failed unit e w = elim (h.content unit_path w) [
    | none ↦ (none, (h.command (codes "systemctl") (codes "stop" ∷ unit ∷ []) w).1)
    | some text ↦ (some (fault e), w)
  ]

  pub stop_unit_next : Bytes → Option Fault × World → Outcome
  unfolding disable_failed
  stop_unit_next unit (none, w) = (none, w)
  stop_unit_next unit (some e, w) = disable_failed unit e w

  unfoldable pub stop_unit : Bytes → World → Outcome
  unfolding stop_unit_next
  stop_unit unit w =
      stop_unit_next unit
        (h.command (codes "systemctl") (codes "disable" ∷ codes "--now" ∷ unit ∷ []) w)

  pub of_vdpa : Option (vkage.Vdpa.VdpaError Fault) × World → Outcome
  of_vdpa (none, w) = (none, w)
  of_vdpa (some e, w) = (some (vdpa e), w)

  -- A round of the loop that unmounts; `again` is the next round, after the sleep.
  pub unmount_round : Bool → (World → Outcome) → Option (Errno Fault) × World → Outcome
  unmount_round last again (none, w) = (none, w)
  unmount_round last again (some (other e), w) = (some (errno (other e)), w)
  unmount_round last again (some busy, w) =
      if last then (some (errno busy), w) else again (h.pause w)

  -- By the rounds that are left: at zero `n` is 100.
  pub unmount_loop : Bytes → ℕ → World → Outcome
  unfolding unmount_round
  unmount_loop dir zero w =
      if h.is_mount_point dir w
      then unmount_round true (λ w'. (none, w')) (h.unmount dir w)
      else (none, w)
  unmount_loop dir (suc n) w =
      if h.is_mount_point dir w
      then unmount_round false (unmount_loop dir n) (h.unmount dir w)
      else (none, w)

  -- The actions of the three stages, in order.
  unfoldable pub stop_actions : Bytes → List (Action World (DeviceError Fault))
  unfolding stop_unit
  stop_actions name =
      record {
        show = show_cmd (codes "systemctl") (codes "disable" ∷ codes "--now" ∷ unit_of name ∷ []);
        run = stop_unit (unit_of name);
      }
      ∷ []

  unfoldable pub removal_actions : Bytes → List (Action World (DeviceError Fault))
  unfolding of_vdpa unmount_loop
  removal_actions name =
      lifted h (
        sysfs_action h (codes "/sys/class/vduse/" ++ (name ++ codes "/msg_timeout")) (codes "1")
          (some (h.attached name)))
      ∷ record {
        show = show_cmd (codes "vdpa") (codes "dev" ∷ codes "del" ∷ name ∷ []);
        run = λ w. of_vdpa (remove (vdpa_host h name) true w);
      }
      ∷ record {
        show =
            codes "# the VDUSE_DESTROY_DEV ioctl for "
            ++ (name ++ codes " on /dev/vduse/control, which no command makes");
        run = λ w. of_vdpa (destroy (vdpa_host h name) w);
      }
      ∷ remove_action h (show_cmd (codes "rm") (codes "-f" ∷ log_path name ∷ [])) (log_path name)
      ∷ record {
        show = show_cmd (codes "umount") (log_dir name ∷ []);
        run = unmount_loop (log_dir name) 100;
      }
      ∷ remove_action h (show_cmd (codes "rmdir") (log_dir name ∷ [])) (log_dir name)
      ∷ []

  abbrev pub on_vfio : Bytes → World → Bool
  on_vfio addr w = str_eq (h.pci_driver addr w) (codes "vfio-pci")

  abbrev pub unbound : Bytes → World → Bool
  unbound addr w = h.present addr w && str_eq (h.pci_driver addr w) []

  unfoldable pub return_actions : Bytes → List (Action World (DeviceError Fault))
  return_actions addr =
      lifted h
        (sysfs_action h (pci_path h addr (codes "driver_override")) [] (some (h.present addr)))
      ∷ lifted h
          (sysfs_action h (pci_path h addr (codes "driver/unbind")) addr (some (on_vfio addr)))
      ∷ lifted h (sysfs_action h (codes "/sys/bus/pci/drivers_probe") addr (some (unbound addr)))
      ∷ []

  unfoldable pub disable_stages : Bytes → Device → List (Stage World (DeviceError Fault))
  unfolding stop_actions removal_actions return_actions
  disable_stages name dev =
      record {
        title = name ++ codes ": stop the guest and keep it from starting at boot";
        notes =
            codes
              "On stop, the service removes the device from the host before it stops\nthe guest.";
        actions = stop_actions name;
      }
      ∷ record {
        title = name ++ codes ": remove what a failed guest left on the host";
        notes = codes "A step is skipped when there is nothing for it to remove.";
        actions = removal_actions name;
      }
      ∷ record {
        title = name ++ (codes ": return " ++ (dev.address ++ codes " to its host driver"));
        notes =
            codes
              "The unbind is skipped unless vfio-pci has the device, and the probe\nunless no driver has it. All three are skipped for a device that is gone\nfrom the PCI bus.";
        actions = return_actions dev.address;
      }
      ∷ []

  abbrev pub forget_stage : Bytes → Stage World (DeviceError Fault)
  forget_stage text = record {
    title = codes "forget the device";
    notes = [];
    actions = config_action h text ∷ [];
  }

  plan_of :
      Config
      → Bytes
      → Device
      → Result Fault Bytes
      → Result Fault (List (Stage World (DeviceError Fault)))
  unfolding disable_stages
  plan_of left name dev (err e) = err e
  plan_of left name dev (ok text) = ok (
      record {
        title = codes "let the host's driver take the device at boot";
        notes = [];
        actions = udev_actions h left;
      }
      ∷ (disable_stages name dev ++ forget_stage text ∷ []))

  -- `marshal` gives the configuration's text, or its error.
  unfoldable pub disable_plan :
      (Config → Result Fault Bytes)
      → Config
      → Bytes
      → Device
      → Result Fault (List (Stage World (DeviceError Fault)))
  unfolding without plan_of
  disable_plan marshal cfg name dev =
      plan_of (without name cfg) name dev (marshal (without name cfg))

-- What `NormalizeAddress` gave for the key, where it gave an address, and else the key.
of_normalized : Bytes → Option Bytes → Bytes
of_normalized key none = key
of_normalized key (some addr) = addr

-- The key that `cmdDisable` looks up for its argument.
unfoldable pub disable_key : Bytes → Bytes
unfolding of_normalized
disable_key arg = of_normalized (map lower arg) (normalize_address (map lower arg))
