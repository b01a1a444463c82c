-- ===== src/Devices/Uninstall.antt =====
-- `cmdUninstall` of tools/cmd/invirtio/devices.go, behind its flags.
use vkage.Base.{Bool, List, [], ◌∷◌, ◌++◌, codes, if◌then◌else◌}
use vkage.Host.{Host}
use vkage.Plan.Stages.{Action, Stage}
use vkage.Plan.Actions.{cmd_action}
use vkage.Config.Devices.{Config}
use vkage.Config.Order.{sorted}
use vkage.Devices.Udev.{DeviceError, lifted, udev_actions}
use vkage.Devices.Disable.{unit_path, disable_stages}

module _ (h : Host) where
  open h use {World, Fault}

  -- The stages of every device of the configuration, in the order of the names.
  all_stages : Config → List (Stage World (DeviceError Fault))
  unfolding disable_stages
  all_stages [] = []
  all_stages (e ∷ es) = disable_stages h e.name e.device ++ all_stages es

  -- The last stage of `cmdUninstall`; `has_user` says whether the guest's user is there.
  unfoldable pub uninstall_actions : Bool → List (Action World (DeviceError Fault))
  uninstall_actions has_user =
      (if has_user
        then lifted h (cmd_action h (codes "userdel") (codes "invirtio" ∷ [])) ∷ []
        else [])
      ++ (lifted h (cmd_action h (codes "rm") (codes "-f" ∷ unit_path ∷ []))
          ∷ lifted h (cmd_action h (codes "systemctl") (codes "daemon-reload" ∷ []))
          ∷ lifted h (cmd_action h (codes "udevadm") (codes "control" ∷ codes "--reload" ∷ []))
          ∷ lifted h (
              cmd_action h (codes "rm") (
                codes "-rf"
                ∷ codes "/usr/lib/invirtio"
                ∷ codes "/etc/invirtio"
                ∷ codes "/run/invirtio"
                ∷ []))
          ∷ lifted h
              (cmd_action h (codes "rm") (codes "-f" ∷ codes "/usr/local/sbin/invirtio" ∷ []))
          ∷ [])

  unfoldable pub uninstall_stages : Bool → Config → List (Stage World (DeviceError Fault))
  unfolding all_stages uninstall_actions
  uninstall_stages has_user cfg =
      record {
        title = codes "let the host's drivers take the devices at boot";
        notes = [];
        actions = udev_actions h [];
      }
      ∷ (all_stages (sorted cfg)
          ++ record {
            title = codes "remove InvirtIO";
            notes = [];
            actions = uninstall_actions has_user;
          }
            ∷ [])
