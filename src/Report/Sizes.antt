-- ===== src/Report/Sizes.antt =====
-- `formatSize` of tools/cmd/invirtio/memory.go, and the rows of memory that stand on it. The quotients
-- are those of float64, whose rounding is written out.
pub mod Units
use vkage.Base.{
  ℕ, zero, suc, ◌+◌, ◌*◌, ◌/◌, ◌%◌, ◌-◌, ◌^◌, Bool, true, false, not, ◌&&◌, ◌||◌, List, [], ◌∷◌,
  ◌++◌, Option, none, some, Bytes, codes, decimal, ◌==◌, leb, ltb, if◌then◌else◌,
}
use vkage.Config.Sizes.{max_int64}
use vkage.Run.Cgroup.{format_int64}
use vkage.Report.Memory.{Amount, unlimited, amount, Keyed, keyed, parse_keyed}

-- A quotient rounded to the nearest number, a half to the even one, as `%.0f` rounds.
unfoldable pub half_even : ℕ → ℕ → ℕ
half_even n d =
    let q = n / d in let r = n % d in if ltb (2 * r) d || 2 * r == d && q % 2 == 0 then q else q + 1

-- By the doublings of the unit that are left.
float64_at : ℕ → ℕ → ℕ → ℕ
unfolding half_even
float64_at zero unit n = half_even n unit * unit
float64_at (suc k) unit n =
    let next = float64_at k (2 * unit) n in
    if ltb n (9007199254740992 * unit) then half_even n unit * unit else next

-- The conversion of an int64 that is not negative to a float64, which has 53 bits: it is rounded to a
-- multiple of the unit of its last bit. The division by a power of two is exact.
unfoldable pub float64 : ℕ → ℕ
unfolding float64_at
float64 n = if ltb n 9007199254740992 then n else float64_at 10 2 n

-- `%.2f` of a quotient.
unfoldable pub hundredths : ℕ → ℕ → Bytes
unfolding half_even
hundredths n d =
    let c = half_even (100 * n) d in
    decimal (c / 100) ++ (b'.' ∷ (b'0' + c / 10 % 10) ∷ (b'0' + c % 10) ∷ [])

-- `math.Round` of a quotient is 1024 or more: it rounds a half up.
abbrev pub rounds_over : ℕ → ℕ → Bool
rounds_over n d = leb (2047 * d) (2 * n)

abbrev pub is_negative : ℕ → Bool
is_negative n = ltb max_int64 n

unfoldable pub format_size : ℕ → Bytes
unfolding hundredths half_even float64
format_size n =
    if is_negative n
    then format_int64 n ++ codes "B"
    else if rounds_over (float64 n) 1048576
    then hundredths (float64 n) 1073741824 ++ codes "G"
    else if rounds_over (float64 n) 1024
    then decimal (half_even (float64 n) 1048576) ++ codes "M"
    else if leb 1024 n
    then decimal (half_even (float64 n) 1024) ++ codes "K"
    else format_int64 n ++ codes "B"

peak_text : Option Amount → Bytes
unfolding format_size
peak_text none = []
peak_text (some unlimited) = codes ", peak " ++ format_size (2 ^ 64 - 1)
peak_text (some (amount n)) = codes ", peak " ++ format_size n

limit_text : Option Amount → Bytes
unfolding format_size
limit_text none = []
limit_text (some unlimited) = codes ", no limit"
limit_text (some (amount n)) =
    if is_negative n then codes ", no limit" else codes ", limit " ++ format_size n

-- `memoryUse`, of what `readBytes` gave for memory.current, memory.peak and memory.max.
unfoldable pub memory_use : Option Amount → Option Amount → Option Amount → Bytes
unfolding peak_text limit_text format_size
memory_use none peak limit = codes "not available"
memory_use (some unlimited) peak limit =
    format_size (2 ^ 64 - 1) ++ (peak_text peak ++ limit_text limit)
memory_use (some (amount cur)) peak limit = format_size cur ++ (peak_text peak ++ limit_text limit)

-- `memoryDetail`, of the text of memory.stat.
unfoldable pub memory_detail : Option Bytes → Bytes
unfolding format_size parse_keyed keyed
memory_detail none = codes "not available"
memory_detail (some stat) =
    let st = parse_keyed stat in
    codes "anon "
    ++ (format_size (keyed (codes "anon") st)
        ++ (codes ", file "
            ++ (format_size (keyed (codes "file") st)
                ++ (codes " (shmem "
                    ++ (format_size (keyed (codes "shmem") st)
                        ++ (codes "), kernel " ++ format_size (keyed (codes "kernel") st)))))))

-- `guestMemory`.
unfoldable pub guest_memory : Bytes → Bytes
unfolding format_size parse_keyed keyed
guest_memory meminfo =
    let m = parse_keyed meminfo in
    let total = keyed (codes "MemTotal") m in
    let avail = keyed (codes "MemAvailable") m in
    if total == 0
    then codes "not available"
    else format_size ((total + 2 ^ 64 - avail) % 2 ^ 64)
      ++ (codes " used of "
          ++ (format_size total
              ++ (codes ", " ++ (format_size (keyed (codes "MemFree") m) ++ codes " free"))))
