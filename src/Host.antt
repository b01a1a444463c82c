-- ===== src/Host.antt =====
-- The host as the tools see it: the commands, files and system calls that tools/ use and do not
-- implement. Every operation is a function over a world; `none` is a nil error.
pub mod Files
pub mod Sample
use vkage.Base.{ℕ, Bool, List, [], ◌∷◌, ◌++◌, Option, none, some, Bytes, codes}
use vkage.Vdpa.{VdpaHost, Errno}
use vkage.Pci.Bind.{PciHost}

-- What `os.Remove` can fail with.
pub data RemoveError (Fault : Type 0) : Type 0 where
  missing : RemoveError Fault
  refused : Fault → RemoveError Fault

-- `command` is tools/internal/command, `sysfs_write` tools/internal/sysfs. `content` is what a file
-- holds, `none` if there is none. `create`, `copy_data` and `close` are the steps of a copy into a
-- file that is opened to be truncated.
pub record Host : Type 1 where
  pub World : Type 0
  pub Fault : Type 0
  pub command : Bytes → List Bytes → World → Option Fault × World
  pub sysfs_write : Bytes → Bytes → World → Option Fault × World
  -- VDUSE devices, by name.
  pub exists : Bytes → World → Bool
  pub attached : Bytes → World → Bool
  pub vdpa_driver : Bytes → World → Bytes
  pub open_control : World → Option Fault
  pub destroy_ioctl : Bytes → World → Option (Errno Fault) × World
  pub pause : World → World
  -- PCI devices, by address. The driver's text is empty where there is none.
  pub present : Bytes → World → Bool
  pub pci_driver : Bytes → World → Bytes
  -- Files and mounts, by path.
  pub content : Bytes → World → Option Bytes
  pub write_file : Bytes → Bytes → ℕ → World → Option Fault × World
  pub chmod : Bytes → ℕ → World → Option Fault × World
  pub rename : Bytes → Bytes → World → Option Fault × World
  pub remove : Bytes → World → Option (RemoveError Fault) × World
  pub mkdir_all : Bytes → ℕ → World → Option Fault × World
  pub same_file : Bytes → Bytes → World → Bool
  pub open_source : Bytes → World → Option Fault
  pub create : Bytes → ℕ → World → Option Fault × World
  pub copy_data : Bytes → Bytes → World → Option Fault × World
  pub close : Bytes → World → Option Fault × World
  pub is_mount_point : Bytes → World → Bool
  pub unmount : Bytes → World → Option (Errno Fault) × World

module _ (h : Host) where
  open h use {World, command, sysfs_write}

  abbrev vduse_dir : Bytes → Bytes
  vduse_dir name = codes "/sys/class/vduse/" ++ name

  -- The interface that tools/internal/vdpa stands on, for a device's name.
  abbrev pub vdpa_host : Bytes → VdpaHost
  vdpa_host name = record {
    World = World;
    Fault = h.Fault;
    exists = h.exists name;
    attached = h.attached name;
    driver = h.vdpa_driver name;
    dev_add =
        command (codes "vdpa")
          (codes "dev" ∷ codes "add" ∷ codes "name" ∷ name ∷ codes "mgmtdev" ∷ codes "vduse" ∷ []);
    dev_del = command (codes "vdpa") (codes "dev" ∷ codes "del" ∷ name ∷ []);
    unbind = sysfs_write (codes "/sys/bus/vdpa/devices/" ++ (name ++ codes "/driver/unbind")) name;
    bind = sysfs_write (codes "/sys/bus/vdpa/drivers/virtio_vdpa/bind") name;
    lower_timeout = λ w. (sysfs_write (vduse_dir name ++ codes "/msg_timeout") (codes "1") w).1;
    open_control = h.open_control;
    destroy_ioctl = h.destroy_ioctl name;
    pause = h.pause;
  }

  -- `pci.Path`.
  abbrev pub pci_path : Bytes → Bytes → Bytes
  pci_path addr file = codes "/sys/bus/pci/devices/" ++ (addr ++ (b'/' ∷ file))

  -- The interface that the binding of tools/internal/pci stands on, for a device's address.
  abbrev pub pci_host : Bytes → PciHost
  pci_host addr = record {
    World = World;
    Fault = h.Fault;
    driver = h.pci_driver addr;
    load_vfio = command (codes "modprobe") (codes "vfio-pci" ∷ []);
    write_override = sysfs_write (pci_path addr (codes "driver_override"));
    unbind = sysfs_write (pci_path addr (codes "driver/unbind")) addr;
    probe = sysfs_write (codes "/sys/bus/pci/drivers_probe") addr;
  }
