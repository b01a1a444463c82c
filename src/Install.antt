-- ===== src/Install.antt =====
-- The copies of `cmdInstall` of tools/cmd/invirtio/install.go, and `hostChecks`.
pub mod Stages
pub mod Checks
mod Tests
use vkage.Base.{
  ℕ, Bool, true, false, not, List, [], ◌∷◌, ◌++◌, Option, none, some, Bytes, codes, str_eq,
  if◌then◌else◌, Result, ok, err,
}
use vkage.Host.{Host}
use vkage.Plan.Stages.{Action, Stage}
use vkage.Plan.Quote.{show_cmd}
use vkage.Plan.Actions.{cmd_action, mkdir_action, copy_action, write_action}
use vkage.Devices.Udev.{config_dir, config_path}
use vkage.Devices.Disable.{unit_path}

pub data InstallError (Fault : Type 0) : Type 0 where
  fault : Fault → InstallError Fault
  no_iommu_groups no_vdpa_command : InstallError Fault
  no_module : Fault → InstallError Fault

-- What install asks of the host beside what the other commands do. `join`, `dir` and `abs` are those of
-- `path/filepath`; `executable` is this program's path, without links. `stat` gives the error, if any.
pub record Installer (h : Host) : Type 0 where
  pub join : List Bytes → Bytes
  pub dir : Bytes → Bytes
  pub abs : Bytes → Result h.Fault Bytes
  pub executable : Result h.Fault Bytes
  pub stat : Bytes → h.World → Option h.Fault
  pub user_known : Bytes → h.World → Bool
  pub iommu_groups : h.World → List Bytes
  pub has_command : Bytes → h.World → Bool
  pub warn : Bytes → h.World → h.World

pub record File : Type 0 where
  pub src : Bytes
  pub dst : Bytes
  pub mode : ℕ

abbrev pub lib_dir : Bytes
lib_dir = codes "/usr/lib/invirtio"

abbrev pub unit_text : Bytes
unit_text =
    codes
      "[Unit]\nDescription=InvirtIO driver guest for %i\nAfter=systemd-udevd.service systemd-modules-load.service\n\n[Service]\nExecStart=/usr/local/sbin/invirtio run %i\nRestart=on-failure\nRestartSec=2\nKillMode=mixed\nTimeoutStopSec=120\nDelegate=yes\nDelegateSubgroup=supervisor\n\n[Install]\nWantedBy=multi-user.target\n"

abbrev pub empty_config : Bytes
empty_config = codes "{\n  \"devices\": {}\n}\n"

-- The modules without which guests do not run.
abbrev pub required : List Bytes
required =
    codes "-n"
    ∷ codes "-a"
    ∷ codes "vfio-pci"
    ∷ codes "vduse"
    ∷ codes "vdpa"
    ∷ codes "virtio_vdpa"
    ∷ []

module _ (h : Host) (i : Installer h) where
  open h use {World, Fault}

  -- An action of plan.go, among those of this file.
  abbrev pub lifted : Action World Fault → Action World (InstallError Fault)
  lifted a = record {
    show = a.show;
    run = λ w. let (e, w') = a.run w in (elim e [ none ↦ none | some x ↦ some (fault x) ], w');
  }

  abbrev pub Ran : Type 0
  Ran = Option (InstallError Fault) × World

  pub module_checked : Option Fault × World → Ran
  module_checked (none, w) = (none, w)
  module_checked (some e, w) = (some (no_module e), w)

  pub wlan_checked : Option Fault × World → Ran
  wlan_checked (none, w) = (none, w)
  wlan_checked (some e, w) = (
    none,
    i.warn (codes "the host kernel has no virtio_wlan, so WiFi devices cannot be exported") w,
  )

  pub groups_checked : List Bytes → World → Ran
  groups_checked [] w = (some no_iommu_groups, w)
  groups_checked (g ∷ gs) w = (none, w)

  pub cgroups_checked : Option Fault → World → Ran
  cgroups_checked none w = (none, w)
  cgroups_checked (some e) w = (
    none,
    i.warn (codes "the host has no cgroup v2 hierarchy, so the guests' memory is not bounded") w,
  )

  pub command_checked : World → Ran
  command_checked w =
      if i.has_command (codes "vdpa") w then (none, w) else (some no_vdpa_command, w)

  unfoldable pub host_checks : List (Action World (InstallError Fault))
  unfolding module_checked wlan_checked groups_checked cgroups_checked command_checked
  host_checks =
      record {
        show = codes "ls /sys/kernel/iommu_groups";
        run = λ w. groups_checked (i.iommu_groups w) w;
      }
      ∷ record {
        show = show_cmd (codes "modprobe") required;
        run = λ w. module_checked (h.command (codes "modprobe") required w);
      }
      ∷ record {
        show = show_cmd (codes "modprobe") (codes "-n" ∷ codes "virtio_wlan" ∷ []);
        run = λ w.
            wlan_checked (h.command (codes "modprobe") (codes "-n" ∷ codes "virtio_wlan" ∷ []) w);
      }
      ∷ record { show = codes "command -v vdpa"; run = command_checked }
      ∷ record {
        show = codes "test -e /sys/fs/cgroup/cgroup.controllers";
        run = λ w. cgroups_checked (i.stat (codes "/sys/fs/cgroup/cgroup.controllers") w) w;
      }
      ∷ []

  abbrev pub Copies : Type 0
  Copies = Result Fault (List (Action World (InstallError Fault)))

  -- A file that is there is copied, unless it is the installed one.
  copy_found : File → Bytes → World → Option Fault → Copies → Copies
  copy_found f src w (some e) rest = err e
  copy_found f src w none (err e) = err e
  copy_found f src w none (ok rest) =
      if h.same_file src f.dst w
      then ok rest
      else ok (lifted (copy_action h src f.dst f.mode) ∷ rest)

  copy_abs : File → World → Result Fault Bytes → Copies → Copies
  unfolding copy_found
  copy_abs f w (err e) rest = err e
  copy_abs f w (ok src) rest = copy_found f src w (i.stat src w) rest

  -- The loop over the files: the first error is returned.
  unfoldable pub copies_of : List File → World → Copies
  unfolding copy_abs
  copies_of [] w = ok []
  copies_of (f ∷ fs) w = let rest = copies_of fs w in copy_abs f w (i.abs f.src) rest
