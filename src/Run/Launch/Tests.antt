-- ===== src/Run/Launch/Tests.antt =====
-- The launcher's arguments for a device, and instances of the theorems on their commas.
use vkage.Base.{◌≡◌, refl, [], ◌∷◌, ◌++◌, codes, str_eq, split}
use vkage.Pci.Address.{valid_address}
use vkage.Config.Names.{check_name}
use vkage.Config.Devices.{Entry, known_type, memory}
use vkage.Config.Devices.Laws.{IsValid}
use vkage.Run.Launch.{log_path, export_arg, device_arg, guest_args}
use vkage.Run.Launch.Split.{split-export_arg, split-device_arg}

abbrev net : Entry
net = record {
  name = codes "net-06-00-0";
  device = record {
    address = codes "0000:06:00.0";
    typ = codes "net";
    memory = [];
    memory_max = 0;
    options = codes "mq" ∷ codes "mtu=9000" ∷ [];
    args = codes "quiet" ∷ [];
    irq_cpus = codes "2-3";
  };
}

abbrev net_valid : IsValid net
unfolding check_name known_type valid_address str_eq
net_valid = record { named = refl; typed = refl; addressed = refl }

launched :
    guest_args net.name net.device []
    ≡ codes "-u"
      ∷ codes "invirtio"
      ∷ codes "-b"
      ∷ codes "-d"
      ∷ codes "0000:06:00.0"
      ∷ codes "-i"
      ∷ codes "/usr/lib/invirtio/initramfs.cpio"
      ∷ codes "-s"
      ∷ codes "/run/invirtio/net-06-00-0.mconsole"
      ∷ codes "-t"
      ∷ codes "30"
      ∷ codes "-e"
      ∷ codes "net,net-06-00-0,log=/run/invirtio/net-06-00-0/inflight"
      ∷ codes "-a"
      ∷ codes "2-3"
      ∷ codes "/usr/lib/invirtio/linux"
      ∷ codes "mem=256M"
      ∷ codes "vduse_guest.device=net,net-06-00-0,mq,mtu=9000"
      ∷ codes "quiet"
      ∷ []
unfolding guest_args memory str_eq
launched = refl

split-export_arg_instance :
    split (export_arg net.name net.device) b','
    ≡ codes "net" ∷ codes "net-06-00-0" ∷ (codes "log=" ++ log_path net.name) ∷ []
split-export_arg_instance = split-export_arg net net_valid

guest_device :
    split (device_arg net.name net.device) b','
    ≡ codes "net" ∷ codes "net-06-00-0" ∷ codes "mq" ∷ codes "mtu=9000" ∷ []
guest_device =
    split-device_arg net net_valid
      ((refl, (refl, tt)), ((refl, (refl, (refl, (refl, (refl, (refl, (refl, (refl, tt)))))))), tt))
