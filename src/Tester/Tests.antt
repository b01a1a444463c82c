-- ===== src/Tester/Tests.antt =====
-- Runs of the commands that move devices between drivers, and instances of their theorems.
use vkage.Base.{
  ℕ, ◌≡◌, refl, inr, true, [], ◌∷◌, none, some, Bytes, codes, str_eq, if◌then◌else◌, ok, split,
  cut_prefix, has_prefix,
}
use vkage.Utf8.{runes, decode_rune}
use vkage.Pci.Address.{contains}
use vkage.Report.Memory.{fields}
use vkage.Pci.Bind.{PciHost, vfio_pci, bind_vfio, bind_native}
use vkage.Pci.InUse.{Block, BlockReads, is_part, behind, in_use, block_uses, swaps}
use vkage.Pci.InUse.Laws.{Among, first, later, Holds, swapped}
use vkage.Tester.Bind.{BindReads, in_use_by, held_by, seen, group_holders, cmd_bind, cmd_unbind}
use vkage.Tester.Bind.Laws.{cmd_bind_refuses, cmd_unbind_refuses}

-- A device, with its driver and its override.
pub record Device : Type 0 where
  pub drv : Bytes
  pub overriding : Bytes

abbrev pci : PciHost
pci = record {
  World = Device;
  Fault = ℕ;
  driver = λ w. w.drv;
  load_vfio = λ w. (none, w);
  write_override = λ v w. (none, record w { overriding = v });
  unbind = λ w. (none, record w { drv = [] });
  probe = λ w. (
    none,
    if str_eq w.overriding vfio_pci
        then record w { drv = vfio_pci }
        else record w { drv = codes "nvme" },
  );
}

abbrev addr : Bytes
addr = codes "0000:01:00.0"

-- A disk whose second partition is swap.
abbrev disk : Block
disk = record {
  name = codes "nvme0n1";
  device = some (codes "/sys/devices/pci0000:00/0000:01:00.0/nvme/nvme0");
}

abbrev disks : BlockReads
disks = record {
  blocks = disk ∷ [];
  lsblk = λ name. codes "nvme0n1 \nnvme0n1p1 /boot\n";
  swapon = codes "/dev/nvme0n1p2\n";
}

disk_uses :
    in_use disks addr
    ≡ codes "/dev/nvme0n1p1 is mounted at /boot" ∷ codes "/dev/nvme0n1p2 is active swap" ∷ []
unfolding in_use block_uses swaps behind contains is_part fields split runes decode_rune cut_prefix
    has_prefix
disk_uses = refl

abbrev swap : Bytes
swap = codes "/dev/nvme0n1p2"

swap_part :
    (fields disks.swapon ≡ swap ∷ [])
    × (is_part disk.name swap ≡ true)
    × (behind addr disk.device ≡ true)
unfolding behind contains is_part fields runes decode_rune cut_prefix has_prefix
swap_part = (refl, refl, refl)

disk-Holds : Holds disks disk.name
disk-Holds = swapped swap (rw swap_part.0 (first [])) swap_part.1

abbrev used : BindReads pci
used = record {
  is_root = true;
  in_use = λ w. in_use disks addr;
  group = λ w. ok (codes "14");
  links = λ w. [];
}

abbrev native : Device
native = record { drv = codes "nvme"; overriding = [] }

cmd_bind_refuses_example : cmd_bind pci used native ≡ (some (in_use_by (in_use disks addr)), native)
cmd_bind_refuses_example =
    cmd_bind_refuses pci used (λ w. disks) addr native disk refl (first []) swap_part.2 disk-Holds

-- The same device with nothing on it, and a process that holds its group twice.
abbrev held : BindReads pci
held = record {
  is_root = true;
  in_use = λ w. [];
  group = λ w. ok (codes "14");
  links = λ w.
      (codes "7", codes "/dev/null")
      ∷ (codes "42", codes "/dev/vfio/14")
      ∷ (codes "42", codes "/dev/vfio/14")
      ∷ [];
}

abbrev moved : Device
moved = record { drv = vfio_pci; overriding = vfio_pci }

bound : cmd_bind pci held native ≡ (none, moved)
unfolding cmd_bind bind_vfio str_eq
bound = refl

held_once : group_holders (codes "14") (held.links moved) ≡ codes "42" ∷ []
unfolding group_holders seen str_eq
held_once = refl

abbrev second_link : Among (codes "42", codes "/dev/vfio/14") (held.links moved)
second_link =
    later (codes "7", codes "/dev/null")
      ((codes "42", codes "/dev/vfio/14") ∷ (codes "42", codes "/dev/vfio/14") ∷ [])
      (first ((codes "42", codes "/dev/vfio/14") ∷ []))

cmd_unbind_refuses_example :
    cmd_unbind pci held moved
    ≡ (some (held_by (codes "14") (group_holders (codes "14") (held.links moved))), moved)
cmd_unbind_refuses_example =
    cmd_unbind_refuses pci held moved (codes "14") (codes "42") refl (inr refl) refl second_link

unbound : cmd_unbind pci used moved ≡ (none, record { drv = codes "nvme"; overriding = b'\n' ∷ [] })
unfolding cmd_unbind bind_native str_eq group_holders
unbound = refl
