-- ===== src/Run/Launch.antt =====
-- `guestArgs` of tools/cmd/invirtio/run.go: the launcher's arguments. The paths of a device are those
-- of tools/cmd/invirtio/config.go for a name that passed `checkName`, which `filepath.Join` leaves as
-- they are.
pub mod Split
mod Tests
use vkage.Base.{Bool, List, [], ◌∷◌, ◌++◌, Bytes, codes, str_eq, if◌then◌else◌}
use vkage.Config.Devices.{Device, memory}

unfoldable pub log_dir : Bytes → Bytes
log_dir name = codes "/run/invirtio/" ++ name

unfoldable pub log_path : Bytes → Bytes
unfolding log_dir
log_path name = log_dir name ++ codes "/inflight"

unfoldable pub mconsole_path : Bytes → Bytes
mconsole_path name = codes "/run/invirtio/" ++ (name ++ codes ".mconsole")

-- The value of the launcher's -e: type, name and log.
unfoldable pub export_arg : Bytes → Device → Bytes
unfolding log_path
export_arg name dev = dev.typ ++ (b',' ∷ (name ++ (b',' ∷ (codes "log=" ++ log_path name))))

-- The loop over the options.
device_options : List Bytes → Bytes
device_options [] = []
device_options (o ∷ os) = b',' ∷ (o ++ device_options os)

-- The value of the guest's vduse_guest.device=.
unfoldable pub device_arg : Bytes → Device → Bytes
unfolding device_options
device_arg name dev = dev.typ ++ (b',' ∷ (name ++ device_options dev.options))

-- A flag and its value, unless the value is empty.
flag_unless_empty : Bytes → Bytes → List Bytes
flag_unless_empty flag value = if str_eq value [] then [] else flag ∷ value ∷ []

unfoldable pub guest_args : Bytes → Device → Bytes → List Bytes
unfolding flag_unless_empty mconsole_path export_arg device_arg
guest_args name dev cgroup =
    (codes "-u"
      ∷ codes "invirtio"
      ∷ codes "-b"
      ∷ codes "-d"
      ∷ dev.address
      ∷ codes "-i"
      ∷ codes "/usr/lib/invirtio/initramfs.cpio"
      ∷ codes "-s"
      ∷ mconsole_path name
      ∷ codes "-t"
      ∷ codes "30"
      ∷ codes "-e"
      ∷ export_arg name dev
      ∷ [])
    ++ (flag_unless_empty (codes "-g") cgroup
        ++ (flag_unless_empty (codes "-a") dev.irq_cpus
            ++ ((codes "/usr/lib/invirtio/linux"
                  ∷ (codes "mem=" ++ memory dev)
                  ∷ (codes "vduse_guest.device=" ++ device_arg name dev)
                  ∷ [])
                ++ dev.args)))
