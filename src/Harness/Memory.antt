-- ===== src/Harness/Memory.antt =====
-- The memory of a guest of the tests, of tools/internal/harness/cgroup.go. An int64 is its 64 bits.
pub mod Laws
use vkage.Base.{
  ℕ, ◌+◌, ◌-◌, ◌%◌, ◌^◌, Bool, true, false, List, [], ◌∷◌, Option, none, some, Bytes, codes, ltb,
  ◌==◌, if◌then◌else◌, Result, ok, err,
}
use vkage.Report.Memory.{Keyed, keyed, parse_keyed, parse_int}

-- A `GuestMemory`.
pub record GuestMemory : Type 0 where
  pub mem : Bytes
  pub peak : ℕ
  pub current : ℕ
  pub anon : ℕ
  pub file : ℕ
  pub shmem : ℕ
  pub kernel : ℕ
  pub guest_total : ℕ
  pub guest_peak_used : ℕ

-- `ParseKeyed`, which is `parseKeyed` of tools/cmd/invirtio/memory.go once more.
abbrev pub parse_lines : Bytes → Keyed
parse_lines text = parse_keyed text

-- `max` of int64s, by their order with the sign bit turned.
unfoldable pub max64 : ℕ → ℕ → ℕ
max64 a b = if ltb ((a + 2 ^ 63) % 2 ^ 64) ((b + 2 ^ 63) % 2 ^ 64) then b else a

abbrev pub used64 : ℕ → ℕ → ℕ
used64 total avail = (total + 2 ^ 64 - avail) % 2 ^ 64

-- `SampleGuest`, of what /proc/meminfo holds of the total and of what is available.
unfoldable pub sampled : ℕ → ℕ → GuestMemory → GuestMemory
unfolding max64
sampled total avail m = if total == 0 then m else record m {
  guest_total = total;
  guest_peak_used = max64 m.guest_peak_used (used64 total avail);
}

unfoldable pub sample_guest : Bytes → GuestMemory → GuestMemory
unfolding sampled parse_keyed keyed
sample_guest meminfo m =
    let info = parse_lines meminfo in
    sampled (keyed (codes "MemTotal") info) (keyed (codes "MemAvailable") info) m

-- `ReadCgroup`, of the files of the cgroup's directory: an error of a number that is no number, or the
-- error of memory.stat. A number that is none is 0; no file holds one beyond an int64.
pub data CgroupError (Fault : Type 0) : Type 0 where
  no_number : CgroupError Fault
  no_stat : Fault → CgroupError Fault

module _ {Fault : Type 0} where
  read_stat : Result Fault Bytes → GuestMemory → Option (CgroupError Fault) × GuestMemory
  unfolding parse_keyed keyed
  read_stat (err e) m = (some (no_stat e), m)
  read_stat (ok text) m =
      let st = parse_lines text in
      (
        none,
        record m {
          anon = keyed (codes "anon") st;
          file = keyed (codes "file") st;
          shmem = keyed (codes "shmem") st;
          kernel = keyed (codes "kernel") st;
        },
      )

  read_current :
      Option ℕ → Result Fault Bytes → GuestMemory → Option (CgroupError Fault) × GuestMemory
  unfolding read_stat
  read_current none stat m = (some no_number, record m { current = 0 })
  read_current (some n) stat m = read_stat stat (record m { current = n })

  read_peak :
      Option ℕ
      → Option ℕ
      → Result Fault Bytes
      → GuestMemory
      → Option (CgroupError Fault) × GuestMemory
  unfolding read_current
  read_peak none cur stat m = (some no_number, record m { peak = 0 })
  read_peak (some n) cur stat m = read_current cur stat (record m { peak = n })

  unfoldable pub read_cgroup :
      Bytes → Bytes → Result Fault Bytes → GuestMemory → Option (CgroupError Fault) × GuestMemory
  unfolding read_peak parse_int
  read_cgroup peak_text current_text stat m =
      read_peak (parse_int peak_text) (parse_int current_text) stat m
