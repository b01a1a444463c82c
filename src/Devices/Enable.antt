-- ===== src/Devices/Enable.antt =====
-- `cmdEnable` of tools/cmd/invirtio/devices.go, behind the parsing of its flags. What it reads of the
-- host before it shows its stages is given by name; `none` is a nil error, an empty text a flag that is
-- not set.
pub mod Groups
pub mod Order
mod Tests
use vkage.Base.{
  ℕ, Bool, true, false, not, ◌&&◌, ◌||◌, List, [], ◌∷◌, ◌++◌, Option, none, some, Bytes, codes,
  str_eq, if◌then◌else◌,
}
use vkage.Base.{Result, ok, err}
use vkage.Host.{Host}
use vkage.Plan.Stages.{Action, Stage}
use vkage.Plan.Actions.{cmd_action}
use vkage.Pci.Address.{normalize_address}
use vkage.Pci.Queries.{PciReads, QueryError, device_type, guest_driver, check_group}
use vkage.Config.Names.{check_name, default_name}
use vkage.Config.Sizes.{parse_size}
use vkage.Config.Devices.{Config, Entry, Device, lookup, find_name}
use vkage.Devices.Udev.{DeviceError, lifted, udev_actions, config_action}
use vkage.Devices.Disable.{unit_of}

-- What `cmdEnable` asks of the host and of its configuration.
pub record Queries (E : Type 0) : Type 0 where
  pub installed : Bool
  pub pci : PciReads E
  pub load : Result E Config

pub data EnableError (E : Type 0) : Type 0 where
  bad_address not_installed bad_size bad_name : EnableError E
  query : QueryError E → EnableError E
  cannot_load : E → EnableError E
  shares_group already_recorded name_taken : Bytes → EnableError E

-- The device's name, the configuration with it, and whether it is new there.
pub record Enabling : Type 0 where
  pub name : Bytes
  pub config : Config
  pub is_new : Bool

abbrev pub is_set : Bytes → Bool
is_set s = not (str_eq s [])

-- A size that is not empty and that `ParseSize` refuses.
abbrev pub refused_size : Bytes → Bool
refused_size memory = is_set memory && elim (parse_size memory) [ none ↦ true | some n ↦ false ]

-- Whether a device's group, if it has one, is that of the address, taken as empty where it has none.
same_group : Option Bytes → Option Bytes → Bool
same_group none g = false
same_group (some d) none = str_eq d []
same_group (some d) (some g) = str_eq d g

module _ {E : Type 0} (q : Queries E) where
  -- The loop over the devices for one in the address's IOMMU group.
  pub group_peer : Bytes → Config → Option Entry
  unfolding same_group
  group_peer addr [] = none
  group_peer addr (e ∷ es) =
      let rest = group_peer addr es in
      if same_group (q.pci.group e.device.address) (q.pci.group addr)
        && not (str_eq e.device.address addr)
      then some e
      else rest

  -- The new entry; the fields that enable does not set are empty.
  abbrev pub new_entry : Bytes → Bytes → Bytes → Bytes → Entry
  new_entry name addr typ memory = record {
    name = name;
    device = record {
      address = addr;
      typ = typ;
      memory = memory;
      memory_max = 0;
      options = [];
      args = [];
      irq_cpus = [];
    };
  }

  record_new : Bytes → Bytes → Bytes → Bytes → Config → Result (EnableError E) Enabling
  record_new addr typ name memory cfg =
      if not (check_name name) then err bad_name else elim (find_name name cfg) [
        | some e ↦ err (name_taken name)
        | none ↦ ok (record {
          name = name;
          config = cfg ++ new_entry name addr typ memory ∷ [];
          is_new = true;
        })
      ]

  record_device : Bytes → Bytes → Bytes → Bytes → Config → Result (EnableError E) Enabling
  unfolding record_new
  record_device addr typ name memory cfg = elim (lookup cfg addr) [
    | some e ↦
        if is_set name && not (str_eq name e.name)
          || is_set memory && not (str_eq memory e.device.memory)
        then err (already_recorded e.name)
        else ok (record { name = e.name; config = cfg; is_new = false })
    | none ↦ record_new addr typ (if is_set name then name else default_name typ addr) memory cfg
  ]

  with_config : Bytes → Bytes → Bytes → Bytes → Result E Config → Result (EnableError E) Enabling
  unfolding record_device group_peer
  with_config addr typ name memory (err e) = err (cannot_load e)
  with_config addr typ name memory (ok cfg) = elim (group_peer addr cfg) [
    | some e ↦ err (shares_group e.name)
    | none ↦ record_device addr typ name memory cfg
  ]

  -- From the check of the group on.
  grouped_device :
      Bytes → Bytes → Bytes → Bytes → Option (QueryError E) → Result (EnableError E) Enabling
  unfolding with_config
  grouped_device addr typ name memory (some e) = err (query e)
  grouped_device addr typ name memory none =
      if refused_size memory then err bad_size else with_config addr typ name memory q.load

  -- From the guest's driver on.
  checked_device :
      Bytes → Bytes → Bytes → Bytes → Result (QueryError E) Bytes → Result (EnableError E) Enabling
  unfolding grouped_device
  checked_device addr typ name memory (err e) = err (query e)
  checked_device addr typ name memory (ok drv) =
      grouped_device addr typ name memory (check_group q.pci addr)

  typed_device :
      Bytes → Bytes → Bytes → Result (QueryError E) Bytes → Result (EnableError E) Enabling
  unfolding checked_device
  typed_device addr name memory (err e) = err (query e)
  typed_device addr name memory (ok typ) =
      checked_device addr typ name memory (guest_driver q.pci addr)

  -- Up to the stages, for the address, the name and the memory that are given.
  unfoldable pub enable : Bytes → Bytes → Bytes → Result (EnableError E) Enabling
  unfolding typed_device
  enable arg name memory = elim (normalize_address arg) [
    | none ↦ err bad_address
    | some addr ↦
        if not q.installed
        then err not_installed
        else typed_device addr name memory (device_type q.pci addr)
  ]

module _ (h : Host) where
  -- The actions of the first stage; `text` is what the configuration is marshalled to.
  unfoldable pub record_actions : Enabling → Bytes → List (Action h.World (DeviceError h.Fault))
  record_actions en text = if en.is_new then config_action h text ∷ [] else []

  -- The stages before the last: the device is recorded and its guest started.
  unfoldable pub start_stages : Enabling → Bytes → List (Stage h.World (DeviceError h.Fault))
  unfolding record_actions
  start_stages en text =
      record {
        title = codes "record the device as " ++ en.name;
        notes = [];
        actions = record_actions en text;
      }
      ∷ record {
        title = codes "start the guest now and at every boot";
        notes =
            codes
              "The service then moves the device to vfio-pci, starts the guest as the\ninvirtio user, and attaches the guest's device with vdpa dev add.";
        actions =
            lifted h (
              cmd_action h (codes "systemctl")
                (codes "enable" ∷ codes "--now" ∷ unit_of en.name ∷ []))
            ∷ [];
      }
      ∷ []

  unfoldable pub enable_stages : Enabling → Bytes → List (Stage h.World (DeviceError h.Fault))
  unfolding start_stages
  enable_stages en text =
      start_stages en text
      ++ record {
        title = codes "keep the host's driver from the device at boot";
        notes = [];
        actions = udev_actions h en.config;
      }
        ∷ []
