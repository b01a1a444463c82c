-- ===== src/Config/Devices.antt =====
-- `Device`, `Config`, `loadConfig`, `lookup` and `device` of tools/cmd/invirtio/config.go. A map of
-- devices is a list of its entries, in the order in which a `range` over it happens to go; none of them
-- is null, at which `loadConfig` would panic. `none` is a nil error.
pub mod Laws
use vkage.Base.{
  ℕ, Bool, true, false, not, List, [], ◌∷◌, Option, none, some, Bytes, codes, str_eq, if◌then◌else◌,
  ◌||◌,
}
use vkage.Base.{Result, ok, err}
use vkage.Pci.Address.{valid_address}
use vkage.Config.Names.{check_name}
use vkage.Config.Sizes.{memory_max}

-- `memory_max` is the 64 bits of an int64.
pub record Device : Type 0 where
  pub address : Bytes
  pub typ : Bytes
  pub memory : Bytes
  pub memory_max : ℕ
  pub options : List Bytes
  pub args : List Bytes
  pub irq_cpus : Bytes

pub record Entry : Type 0 where
  pub name : Bytes
  pub device : Device

abbrev pub Config : Type 0
Config = List Entry

-- The types that `defaultMemory` has an entry for.
unfoldable pub known_type : Bytes → Bool
known_type typ = str_eq typ (codes "wlan") || str_eq typ (codes "net")

-- `defaultMemory`, empty for another type.
unfoldable pub default_memory : Bytes → Bytes
unfolding known_type
default_memory typ = if known_type typ then codes "256M" else []

unfoldable pub memory : Device → Bytes
unfolding default_memory
memory d = if str_eq d.memory [] then default_memory d.typ else d.memory

-- The method `memoryMax`.
unfoldable pub device_memory_max : Device → Option ℕ
unfolding memory
device_memory_max d = memory_max d.memory_max (memory d)

pub data LoadError (E : Type 0) : Type 0 where
  cannot_read : E → LoadError E
  cannot_parse : E → LoadError E
  bad_name unknown_type invalid_address : Bytes → LoadError E

-- The result of reading the file.
pub data ReadFile (E : Type 0) : Type 0 where
  not_exist : ReadFile E
  failed : E → ReadFile E
  contents : Bytes → ReadFile E

module _ {E : Type 0} where
  -- A round of the loop over the devices.
  unfoldable pub check_entry : Entry → Option (LoadError E)
  unfolding known_type
  check_entry e =
      if not (check_name e.name)
      then some (bad_name e.name)
      else if not (known_type e.device.typ)
      then some (unknown_type e.name)
      else if not (valid_address e.device.address)
      then some (invalid_address e.name)
      else none

  unfoldable pub check_entries : Config → Option (LoadError E)
  unfolding check_entry
  check_entries [] = none
  check_entries (e ∷ es) =
      let rest = check_entries es in elim (check_entry e) [ none ↦ rest | some x ↦ some x ]

  checked : Config → Option (LoadError E) → Result (LoadError E) Config
  checked cfg none = ok cfg
  checked cfg (some e) = err e

  -- Behind `json.Unmarshal`; a file without devices gives an empty map.
  parsed : Result E (Option Config) → Result (LoadError E) Config
  unfolding check_entries checked
  parsed (err e) = err (cannot_parse e)
  parsed (ok none) = ok []
  parsed (ok (some cfg)) = checked cfg (check_entries cfg)

  -- `unmarshal` is a parameter; it gives no map where the file has none.
  unfoldable pub load_config :
      (Bytes → Result E (Option Config)) → ReadFile E → Result (LoadError E) Config
  unfolding parsed
  load_config unmarshal not_exist = ok []
  load_config unmarshal (failed e) = err (cannot_read e)
  load_config unmarshal (contents data') = parsed (unmarshal data')

-- `c.Devices[key]`.
unfoldable pub find_name : Bytes → Config → Option Entry
find_name key [] = none
find_name key (e ∷ es) = let rest = find_name key es in if str_eq e.name key then some e else rest

-- The loop of `lookup`.
find_address : Bytes → Config → Option Entry
find_address key [] = none
find_address key (e ∷ es) =
    let rest = find_address key es in if str_eq e.device.address key then some e else rest

unfoldable pub lookup : Config → Bytes → Option Entry
unfolding find_name find_address
lookup c key = elim (find_name key c) [ some e ↦ some e | none ↦ find_address key c ]
