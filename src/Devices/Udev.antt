-- ===== src/Devices/Udev.antt =====
-- `udevActions` and `configAction` of tools/cmd/invirtio/devices.go, over the host. The errors of the
-- actions are those of the parts that they call.
pub mod Keeps
pub mod Rules
use vkage.Base.{
  ℕ, Bool, true, false, List, [], ◌∷◌, ◌++◌, Option, none, some, Bytes, codes, if◌then◌else◌,
}
use vkage.Host.{Host, RemoveError, missing, refused}
use vkage.Vdpa.{VdpaError, Errno}
use vkage.Plan.Stages.{Action}
use vkage.Plan.Quote.{show_cmd}
use vkage.Plan.Actions.{cmd_action, write_action, save_run}
use vkage.Config.Devices.{Config, Entry}
use vkage.Config.Order.{sorted}

pub data DeviceError (Fault : Type 0) : Type 0 where
  fault : Fault → DeviceError Fault
  vdpa : VdpaError Fault → DeviceError Fault
  errno : Errno Fault → DeviceError Fault

abbrev pub config_dir : Bytes
config_dir = codes "/etc/invirtio"

abbrev pub config_path : Bytes
config_path = codes "/etc/invirtio/devices.json"

abbrev pub rule_path : Bytes
rule_path = codes "/etc/udev/rules.d/70-invirtio.rules"

-- The rule of a device's address.
unfoldable pub rule_line : Bytes → Bytes
rule_line addr =
    codes "ACTION==\"add\", SUBSYSTEM==\"pci\", KERNEL==\""
    ++ (addr ++ codes "\", ATTR{driver_override}=\"vfio-pci\"\n")

-- The loop over the sorted names.
pub rule_lines : Config → Bytes
unfolding rule_line
rule_lines [] = []
rule_lines (e ∷ es) = rule_line e.device.address ++ rule_lines es

unfoldable pub rule_text : Config → Bytes
unfolding rule_lines
rule_text c = codes "# Written by invirtio enable and disable.\n" ++ rule_lines (sorted c)

module _ (h : Host) where
  open h use {World, Fault}

  -- An action of plan.go, among those of this file.
  abbrev pub lifted : Action World Fault → Action World (DeviceError Fault)
  lifted a = record {
    show = a.show;
    run = λ w. let (e, w') = a.run w in (elim e [ none ↦ none | some x ↦ some (fault x) ], w');
  }

  -- A file that is not there counts as removed.
  pub removed : Option (RemoveError Fault) × World → Option (DeviceError Fault) × World
  removed (none, w) = (none, w)
  removed (some missing, w) = (none, w)
  removed (some (refused e), w) = (some (fault e), w)

  unfoldable pub remove_action : Bytes → Bytes → Action World (DeviceError Fault)
  unfolding removed
  remove_action show path = record { show = show; run = λ w. removed (h.remove path w) }

  -- `write` of `udevActions`.
  unfoldable pub write_rules : Config → Action World (DeviceError Fault)
  unfolding remove_action
  write_rules [] = remove_action (show_cmd (codes "rm") (codes "-f" ∷ rule_path ∷ [])) rule_path
  write_rules (e ∷ es) = lifted (write_action h rule_path (rule_text (e ∷ es)) 420)

  unfoldable pub udev_actions : Config → List (Action World (DeviceError Fault))
  unfolding write_rules
  udev_actions c =
      write_rules c
      ∷ lifted (cmd_action h (codes "udevadm") (codes "control" ∷ codes "--reload" ∷ []))
      ∷ []

  -- `text` is what the configuration is marshalled to.
  unfoldable pub config_action : Bytes → Action World (DeviceError Fault)
  config_action text = lifted (record {
    show = (write_action h config_path (text ++ b'\n' ∷ []) 420).show;
    run = λ w. let t = save_run h config_dir config_path text w in (t.error, t.world);
  })
