-- ===== src/Config/Tests.antt =====
-- Runs of the configuration's functions on inputs of invirtio_test.go and others, and instances of
-- their theorems.
use vkage.Base.{
  ℕ, ◌+◌, ◌*◌, ◌/◌, ◌^◌, ◌≤◌, ◌<◌, ◌≡◌, refl, ◌⊎◌, inl, inr, true, false, [], ◌∷◌, ◌++◌, Option,
  none, some, Bytes, codes, arith, decimal, All, str_eq,
}
use mathlib.Core.List.{Mem}
use vkage.Base.{Result, ok}
use vkage.Pci.Address.{valid_address}
use mathlib.Core.List.{Perm}
use vkage.Config.Order.{sorted}
use vkage.Config.Order.Sorted.{IsSorted, sorted_lem}
use vkage.Config.Names.{check_name, default_name}
use vkage.Config.Names.Laws.{check_name-default_name, default_name_inj}
use vkage.Config.Sizes.{max_int64, unit_shift, parse_size, memory_max}
use vkage.Config.Sizes.Laws.{unit, parse_size-decimal, memory_max_above}
use vkage.Config.Devices.{Entry, Config, contents, load_config, lookup, known_type}
use vkage.Config.Devices.Laws.{IsValid, load_config-IsValid, lookup-some}

sizes_taken :
    (parse_size (codes "256M") ≡ some 268435456)
    × (parse_size (codes "1k") ≡ some 1024)
    × (parse_size (codes "4096") ≡ some 4096)
unfolding parse_size decimal unit_shift str_eq
sizes_taken = (refl, refl, refl)

sizes_refused :
    (parse_size (codes "") ≡ none)
    × (parse_size (codes "0M") ≡ none)
    × (parse_size (codes "012") ≡ none)
    × (parse_size (codes "1x") ≡ none)
    × (parse_size (codes "-1M") ≡ none)
    × (parse_size (codes "9223372036854775807K") ≡ none)
unfolding parse_size decimal unit_shift str_eq
sizes_refused = (refl, refl, refl, refl, refl, refl)

-- A size near the largest int64 is taken, but with the 512 MiB it is past it: the int64 is negative.
limit_wraps : memory_max 0 (codes "9007199254740991K") ≡ some 9223372037391645696
unfolding memory_max parse_size decimal unit_shift str_eq
limit_wraps = refl

unit_m : 0 < unit_shift b'm'
unfolding unit_shift
unit_m = omega arith

few : 256 ≤ max_int64 / 2 ^ unit_shift b'm'
unfolding unit_shift
few = omega arith

parse_size-decimal_instance :
    parse_size (decimal 256 ++ b'm' ∷ []) ≡ some (256 * 2 ^ unit_shift b'm')
parse_size-decimal_instance =
    parse_size-decimal 256 (b'm' ∷ []) (unit_shift b'm') (unit b'm' unit_m) (omega arith) few

limit_256m :
    (limit : ℕ) × (memory_max 0 (codes "256M") ≡ some limit)
    × (268435456 < limit)
    × (limit ≤ max_int64)
limit_256m = memory_max_above 0 268435456 (codes "256M") refl sizes_taken.0 (omega arith)

abbrev card : Bytes
card = codes "0000:06:00.0"

abbrev port : Bytes
port = codes "0001:06:00.1"

card_valid : valid_address card ≡ true
unfolding valid_address
card_valid = refl

card_named : default_name (codes "wlan") card ≡ codes "wlan-06-00-0"
unfolding default_name vkage.Base.trim_prefix
card_named = refl

check_name-default_name_instance : check_name (default_name (codes "wlan") card) ≡ true
check_name-default_name_instance = check_name-default_name (codes "wlan") card (inl refl) card_valid

default_name_inj_instance : card ≡ card
default_name_inj_instance = default_name_inj (codes "net") card card card_valid card_valid refl

abbrev wlan : Entry
wlan = record {
  name = codes "wlan-06-00-0";
  device = record {
    address = card;
    typ = codes "wlan";
    memory = [];
    memory_max = 0;
    options = [];
    args = [];
    irq_cpus = [];
  };
}

-- A reading of JSON that finds the one device in every file.
abbrev one_device : Bytes → Result ℕ (Option Config)
one_device data' = ok (some (wlan ∷ []))

loaded : load_config one_device (contents (codes "{}")) ≡ ok (wlan ∷ [])
unfolding load_config check_name known_type valid_address str_eq
loaded = refl

load_config-IsValid_example : All IsValid (wlan ∷ [])
load_config-IsValid_example =
    load_config-IsValid one_device (contents (codes "{}")) (wlan ∷ []) loaded

by_address : lookup (wlan ∷ []) card ≡ some wlan
unfolding lookup str_eq
by_address = refl

lookup-some_instance :
    Mem wlan (wlan ∷ [])
    × ((wlan.name ≡ card)
        ⊎ ((wlan.device.address ≡ card)
            × All (λ (x : Entry). str_eq x.name card ≡ false) (wlan ∷ [])))
lookup-some_instance = lookup-some (wlan ∷ []) card wlan by_address

abbrev named : Bytes → Entry
named n = record wlan { name = n }

sorted_two :
    Perm
      (sorted (named (codes "b") ∷ named (codes "a") ∷ []))
      (named (codes "b") ∷ named (codes "a") ∷ [])
    × IsSorted (sorted (named (codes "b") ∷ named (codes "a") ∷ []))
sorted_two = sorted_lem (named (codes "b") ∷ named (codes "a") ∷ [])
