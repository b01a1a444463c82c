-- ===== src/Harness/Irqs.antt =====
-- `PlaceIRQs` and `OnlineCPUs` of tools/internal/harness/cpu.go, over an interface of the files.
pub mod Placed
use Prim.Native.Nat.{bit_and}
use vkage.Base.{
  ℕ, zero, suc, ◌+◌, ◌/◌, ◌%◌, Bool, List, [], ◌∷◌, ◌++◌, Option, none, some, Bytes, codes,
  if◌then◌else◌,
}
use vkage.Harness.Masks.{Mask, set_bit, intersects, parse_cpu_list, parse_mask, format_mask}

-- `read` is `Read`: a file without the whitespace around it, or nothing. `glob` is what
-- `filepath.Glob` finds, and `none` of a write is a nil error.
pub record IrqHost : Type 1 where
  pub World : Type 0
  pub Fault : Type 0
  pub read : Bytes → World → Bytes
  pub write : Bytes → Bytes → World → Option Fault × World
  pub glob : Bytes → World → List Bytes

pub data IrqError (Fault : Type 0) : Type 0 where
  cannot_parse_list : Bytes → IrqError Fault
  cannot_parse_mask : Bytes → IrqError Fault
  write_failed : Bytes → Fault → IrqError Fault

abbrev pub online_path : Bytes
online_path = codes "/sys/devices/system/cpu/online"

-- The mask that a queue gets. The CPU is `none` where it is negative.
unfoldable pub placed : Option ℕ → Mask → Mask → Mask
placed (some c) online mask = set_bit [] c
placed none online mask = if intersects mask online then mask else online

module _ (h : IrqHost) where
  open h use {World, Fault, read, write, glob}

  abbrev pub Outcome : Type 0
  Outcome = Option (IrqError Fault) × World

  pub wrote : Bytes → Option Fault × World → (World → Outcome) → Outcome
  wrote f (some e, w) next = (some (write_failed f e), w)
  wrote f (none, w) next = next w

  pub place_one : Option ℕ → Mask → Bytes → Option Mask → (World → Outcome) → World → Outcome
  unfolding wrote
  place_one c online f none next w = (some (cannot_parse_mask (read f w)), w)
  place_one c online f (some mask) next w =
      wrote f (write f (format_mask (placed c online mask)) w) next

  pub place_each : Option ℕ → Mask → List Bytes → World → Outcome
  unfolding place_one
  place_each c online [] w = (none, w)
  place_each c online (f ∷ fs) w =
      place_one c online f (parse_mask (read f w)) (place_each c online fs) w

  pub place_online : Bytes → Option ℕ → Option Mask → World → Outcome
  unfolding place_each
  place_online name c none w = (some (cannot_parse_list (read online_path w)), w)
  place_online name c (some online) w =
      place_each c online
        (glob (codes "/sys/class/vduse/" ++ (name ++ codes "/vq*/irq_cb_affinity")) w) w

  unfoldable pub place_irqs : Bytes → Option ℕ → World → Outcome
  unfolding place_online
  place_irqs name c w = place_online name c (parse_cpu_list (read online_path w)) w

-- `bits.OnesCount64`, by so many digits.
ones_count : ℕ → ℕ → ℕ
ones_count zero w = 0
ones_count (suc k) w = w % 2 + ones_count k (w / 2)

cpu_count : Mask → ℕ
unfolding ones_count
cpu_count [] = 0
cpu_count (w ∷ ws) = ones_count 64 w + cpu_count ws

count_parsed : Option Mask → ℕ
unfolding cpu_count
count_parsed none = 0
count_parsed (some mask) = cpu_count mask

-- `OnlineCPUs`, of what the file holds.
unfoldable pub online_cpus : Bytes → ℕ
unfolding count_parsed
online_cpus text = count_parsed (parse_cpu_list text)
