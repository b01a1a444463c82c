-- ===== src/Pci/InUse.antt =====
-- `InUse` of tools/internal/pci/pci.go: what holds the block devices behind a device, over what it
-- reads of the host.
pub mod Laws
use vkage.Base.{
  ℕ, Bool, true, false, ◌&&◌, List, [], ◌∷◌, ◌++◌, Option, none, some, Bytes, codes, cut_prefix,
  split, is_digit, ◌==◌, if◌then◌else◌,
}
use vkage.Pci.Address.{contains}
use vkage.Report.Memory.{fields}

-- A directory of /sys/block, with the device it resolves to, if it does.
pub record Block : Type 0 where
  pub name : Bytes
  pub device : Option Bytes

-- `lsblk` is what lsblk prints for a block device's name, `swapon` what swapon prints.
pub record BlockReads : Type 0 where
  pub blocks : List Block
  pub lsblk : Bytes → Bytes
  pub swapon : Bytes

-- `[0-9]+`, with `some_digit` for what came before.
digits_only : Bool → Bytes → Bool
digits_only some_digit [] = some_digit
digits_only some_digit (b ∷ s) = let rest = digits_only true s in is_digit b && rest

partition_suffix : Bytes → Bool
unfolding digits_only
partition_suffix [] = true
partition_suffix (b ∷ s) = if b == b'p' then digits_only false s else digits_only false (b ∷ s)

of_disk : Option Bytes → Bool
unfolding partition_suffix
of_disk none = false
of_disk (some rest) = partition_suffix rest

-- Whether a device is a disk or one of its partitions.
unfoldable pub is_part : Bytes → Bytes → Bool
unfolding of_disk cut_prefix
is_part name swap = of_disk (cut_prefix swap (codes "/dev/" ++ name))

-- A line of lsblk with a mount point.
mount_line : List Bytes → List Bytes → List Bytes
mount_line (dev ∷ at ∷ []) uses = (codes "/dev/" ++ (dev ++ (codes " is mounted at " ++ at))) ∷ uses
mount_line _ uses = uses

mounts : List Bytes → List Bytes
unfolding mount_line fields
mounts [] = []
mounts (l ∷ ls) = mount_line (fields l) (mounts ls)

unfoldable pub swaps : Bytes → List Bytes → List Bytes
unfolding is_part
swaps name [] = []
swaps name (s ∷ ss) =
    let rest = swaps name ss in
    if is_part name s then (s ++ codes " is active swap") ∷ rest else rest

-- Whether the path of a block device leads through the PCI device.
unfoldable pub behind : Bytes → Option Bytes → Bool
behind addr none = false
behind addr (some dev) = contains (dev ++ codes "/") (b'/' ∷ (addr ++ codes "/"))

module _ (r : BlockReads) where
  unfoldable pub block_uses : Bytes → List Bytes
  unfolding mounts swaps
  block_uses name = mounts (split (r.lsblk name) b'\n') ++ swaps name (fields r.swapon)

  pub uses_of : Bytes → List Block → List Bytes
  unfolding behind block_uses
  uses_of addr [] = []
  uses_of addr (b ∷ bs) =
      let rest = uses_of addr bs in if behind addr b.device then block_uses b.name ++ rest else rest

  unfoldable pub in_use : Bytes → List Bytes
  unfolding uses_of
  in_use addr = uses_of addr r.blocks
