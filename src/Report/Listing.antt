-- ===== src/Report/Listing.antt =====
-- tools/cmd/invirtio/list.go: the lines of lspci, and a row of the list.
use vkage.Base.{
  Bool, List, [], ◌∷◌, ◌++◌, Option, none, some, Bytes, codes, str_eq, split, trim_prefix,
  if◌then◌else◌,
}
use vkage.Pci.Address.{valid_address, class_type, match_driver, cut}
use vkage.Config.Devices.{Config, lookup}

-- The name behind the device's class, or all where there is no class.
unclassed : Bytes → Option (Bytes × Bytes) → Bytes
unclassed rest none = rest
unclassed rest (some (class, name)) = name

lspci_cut : Option (Bytes × Bytes) → Option (Bytes × Bytes)
unfolding unclassed
lspci_cut none = none
lspci_cut (some (addr, rest)) =
    if valid_address addr then some (addr, unclassed rest (cut rest (codes ": "))) else none

-- `parseLspci`: the address and the name.
unfoldable pub parse_lspci : Bytes → Option (Bytes × Bytes)
unfolding lspci_cut
parse_lspci line = lspci_cut (cut line (codes " "))

-- `names`, with what was set last in front.
abbrev pub Names : Type 0
Names = List (Bytes × Bytes)

-- `names[addr]`, empty where it was not set.
unfoldable pub name_of : Bytes → Names → Bytes
name_of addr [] = []
name_of addr ((a, n) ∷ ns) = let rest = name_of addr ns in if str_eq a addr then n else rest

lspci_line : Option (Bytes × Bytes) → Names → Names
lspci_line none ns = ns
lspci_line (some named) ns = named ∷ ns

lspci_lines : List Bytes → Names → Names
unfolding lspci_line
lspci_lines [] ns = ns
lspci_lines (l ∷ ls) ns = lspci_lines ls (lspci_line (parse_lspci l) ns)

-- `lspciNames`, of the output of lspci, if it ran.
unfoldable pub lspci_names : Option Bytes → Names
unfolding lspci_lines
lspci_names none = []
lspci_names (some out) = lspci_lines (split out b'\n') []

-- `pciIDs`, of the two files' texts, empty where they cannot be read.
unfoldable pub pci_ids : Bytes → Bytes → Bytes
pci_ids vendor device = trim_prefix vendor (codes "0x") ++ (b':' ∷ trim_prefix device (codes "0x"))

-- What sysfs gives of a device; the texts are empty where they cannot be read.
pub record Listed : Type 0 where
  pub address : Bytes
  pub class : Option Bytes
  pub driver : Bytes
  pub modalias : Bytes
  pub vendor : Bytes
  pub device : Bytes

pub record Row : Type 0 where
  pub address : Bytes
  pub typ : Bytes
  pub host_driver : Bytes
  pub guest_driver : Bytes
  pub enabled : Bytes
  pub name : Bytes

module _ (match : Bytes → Bytes → Bool) (modinfo : Option Bytes) (cfg : Config) (ns : Names) where
  -- The guest's driver for a modalias.
  guest_of : Option Bytes → Bytes → Bytes
  guest_of none alias = codes "unknown"
  guest_of (some text) alias =
      let drv = match_driver match alias text in
      if str_eq drv [] then codes "not supported" else drv

  -- A round of the loop, for a device whose class could be read.
  row_of_class : Listed → Bytes → List Row
  unfolding guest_of
  row_of_class d class =
      if str_eq (class_type class) []
      then []
      else record {
        address = d.address;
        typ = class_type class;
        host_driver = if str_eq d.driver [] then codes "none" else d.driver;
        guest_driver = guest_of modinfo d.modalias;
        enabled = elim (lookup cfg d.address) [ none ↦ codes "-" | some e ↦ e.name ];
        name =
            let name = name_of d.address ns in
            if str_eq name [] then pci_ids d.vendor d.device else name;
      }
        ∷ []

  -- The loop over the devices, in the order of their paths.
  unfoldable pub rows : List Listed → List Row
  unfolding row_of_class
  rows [] = []
  rows (d ∷ ds) = elim d.class [ none ↦ [] | some class ↦ row_of_class d class ] ++ rows ds
