-- ===== src/Install/Stages.antt =====
-- The stages of `cmdInstall` of tools/cmd/invirtio/install.go.
use vkage.Base.{
  List, [], ◌∷◌, Option, none, some, Bytes, codes, str_eq, if◌then◌else◌, Result, ok, err,
}
use vkage.Host.{Host}
use vkage.Plan.Stages.{Action, Stage}
use vkage.Plan.Actions.{cmd_action, mkdir_action, write_action}
use vkage.Devices.Udev.{config_dir, config_path}
use vkage.Devices.Disable.{unit_path}
use vkage.Install.{
  InstallError, Installer, File, lib_dir, unit_text, empty_config, lifted, host_checks, Copies,
  copies_of,
}

module _ (h : Host) (i : Installer h) where
  open h use {World, Fault}

  -- The files, for the guest's build directory, the initramfs, the launcher and this program.
  unfoldable pub files_of : Bytes → Bytes → Bytes → Bytes → List File
  files_of guest initramfs launcher self =
      record {
        src = i.join (guest ∷ codes "linux" ∷ []);
        dst = codes "/usr/lib/invirtio/linux";
        mode = 493;
      }
      ∷ record {
        src = i.join (guest ∷ codes "modules.builtin.modinfo" ∷ []);
        dst = codes "/usr/lib/invirtio/modules.builtin.modinfo";
        mode = 420;
      }
      ∷ record {
        src =
            if str_eq initramfs []
            then i.join (guest ∷ codes "initramfs" ∷ codes "initramfs.cpio" ∷ [])
            else initramfs;
        dst = codes "/usr/lib/invirtio/initramfs.cpio";
        mode = 420;
      }
      ∷ record {
        src =
            if str_eq launcher []
            then i.join (i.dir self ∷ codes "invirtio-launch" ∷ [])
            else launcher;
        dst = codes "/usr/lib/invirtio/invirtio-launch";
        mode = 493;
      }
      ∷ record { src = self; dst = codes "/usr/local/sbin/invirtio"; mode = 493 }
      ∷ []

  user_actions : World → List (Action World (InstallError Fault))
  user_actions w =
      if i.user_known (codes "invirtio") w
      then []
      else lifted h i (
          cmd_action h (codes "useradd") (
            codes "--system"
            ∷ codes "--no-create-home"
            ∷ codes "--home-dir"
            ∷ codes "/nonexistent"
            ∷ codes "--shell"
            ∷ codes "/usr/sbin/nologin"
            ∷ codes "--user-group"
            ∷ codes "invirtio"
            ∷ []))
        ∷ []

  config_missing : Option Fault → List (Action World (InstallError Fault))
  config_missing none = []
  config_missing (some e) =
      lifted h i (mkdir_action h config_dir 493)
      ∷ lifted h i (write_action h config_path empty_config 420)
      ∷ []

  unfoldable pub check_stage : Stage World (InstallError Fault)
  check_stage = record {
    title = codes "check that the host can run guests";
    notes = [];
    actions = host_checks h i;
  }

  pub later_stages :
      List (Action World (InstallError Fault)) → World → List (Stage World (InstallError Fault))
  unfolding user_actions config_missing
  later_stages copies w =
      record {
        title = codes "copy the guest, the launcher and invirtio";
        notes = [];
        actions = lifted h i (mkdir_action h lib_dir 493) ∷ copies;
      }
      ∷ record {
        title = codes "add the user invirtio, which the guests run as";
        notes = [];
        actions = user_actions w;
      }
      ∷ record {
        title = codes "install the service";
        notes = [];
        actions =
            lifted h i (write_action h unit_path unit_text 420)
            ∷ lifted h i (cmd_action h (codes "systemctl") (codes "daemon-reload" ∷ []))
            ∷ [];
      }
      ∷ record {
        title = codes "create the device list";
        notes = [];
        actions = config_missing (i.stat config_path w);
      }
      ∷ []

  unfoldable pub staged :
      World → Copies h i → Result Fault (List (Stage World (InstallError Fault)))
  unfolding check_stage later_stages
  staged w (err e) = err e
  staged w (ok copies) = ok (check_stage ∷ later_stages copies w)

  unfoldable pub installed_by :
      Bytes
      → Bytes
      → Bytes
      → World
      → Result Fault Bytes
      → Result Fault (List (Stage World (InstallError Fault)))
  unfolding staged files_of
  installed_by guest initramfs launcher w (err e) = err e
  installed_by guest initramfs launcher w (ok self) =
      staged w (copies_of h i (files_of guest initramfs launcher self) w)

  -- The stages, for the flags -guest, -initramfs and -launcher.
  unfoldable pub install_stages :
      Bytes → Bytes → Bytes → World → Result Fault (List (Stage World (InstallError Fault)))
  unfolding installed_by
  install_stages guest initramfs launcher w = installed_by guest initramfs launcher w i.executable
