-- ===== src/Harness/Stat.antt =====
-- The lines of /proc that tools/internal/harness/cpu.go reads. An int64 is its 64 bits, and no
-- number is printed negative there.
pub mod Laws
use vkage.Base.{
  ℕ, zero, suc, ◌+◌, ◌-◌, ◌%◌, ◌^◌, Bool, true, false, ◌||◌, not, List, [], ◌∷◌, ◌++◌, Option, none,
  some, Bytes, codes, has_prefix, length, get_elem?, get_or, take, drop, ltb, ◌==◌, if◌then◌else◌,
}
use vkage.Report.Memory.{fields, parse_int}

-- The numbers of fields; an error of one ends the loop.
numbers_next : Option ℕ → Option (List ℕ) → Option (List ℕ)
numbers_next none ns = none
numbers_next (some n) none = none
numbers_next (some n) (some ns) = some (n ∷ ns)

numbers : List Bytes → Option (List ℕ)
unfolding numbers_next parse_int
numbers [] = some []
numbers (x ∷ xs) = numbers_next (parse_int x) (numbers xs)

-- The sum of int64s onto another.
unfoldable pub sum : ℕ → List ℕ → ℕ
sum total [] = total
sum total (n ∷ ns) = sum ((total + n) % 2 ^ 64) ns

abbrev pub sub64 : ℕ → ℕ → ℕ
sub64 a b = (a + 2 ^ 64 - b) % 2 ^ 64

-- Busy and total, of the numbers of a line.
unfoldable pub ticks : Option (List ℕ) → ℕ × ℕ
unfolding sum
ticks none = (0, 0)
ticks (some v) = (sub64 (sub64 (sum 0 v) (get_or v 3 0)) (get_or v 4 0), sum 0 v)

cpu_fields : List Bytes → ℕ × ℕ
unfolding numbers ticks has_prefix
cpu_fields [] = (0, 0)
cpu_fields (f ∷ fs) =
    if ltb (length (f ∷ fs)) 8 || not (has_prefix f (codes "cpu"))
    then (0, 0)
    else ticks (numbers (take 8 fs))

-- `ParseCPULine`: busy and total.
unfoldable pub parse_cpu_line : Bytes → ℕ × ℕ
unfolding cpu_fields fields
parse_cpu_line line = cpu_fields (fields line)

-- What follows the last parenthesis, if there is one: of a byte and of what follows it.
after_next : ℕ → Bytes → Option Bytes → Option Bytes
after_next b s (some r) = some r
after_next b s none = if b == b')' then some s else none

unfoldable pub after_last : Bytes → Option Bytes
unfolding after_next
after_last [] = none
after_last (b ∷ s) = after_next b s (after_last s)

-- The number of a field, zero where there is none or it is no number.
number_or_zero : Option ℕ → ℕ
number_or_zero none = 0
number_or_zero (some n) = n

field_number : List Bytes → ℕ → ℕ
unfolding number_or_zero parse_int
field_number fs i = number_or_zero (parse_int (get_or fs i []))

stat_ticks : Option Bytes → ℕ × ℕ
unfolding field_number fields
stat_ticks none = (0, 0)
stat_ticks (some rest) =
    let fs = fields rest in
    if ltb (length fs) 13 then (0, 0) else (field_number fs 11, field_number fs 12)

-- `ParseStat`: utime and stime.
unfoldable pub parse_stat : Bytes → ℕ × ℕ
unfolding stat_ticks after_last
parse_stat stat = stat_ticks (after_last stat)

stat_parent : Option Bytes → ℕ
unfolding field_number fields
stat_parent none = 0
stat_parent (some rest) = let fs = fields rest in if ltb (length fs) 2 then 0 else field_number fs 1

of_content : Option Bytes → Option Bytes
unfolding after_last
of_content none = none
of_content (some stat) = after_last stat

-- `Parent` and `ProcessTicks`, of what /proc/<pid>/stat holds, if it can be read.
unfoldable pub parent : Option Bytes → ℕ
unfolding stat_parent of_content
parent content = stat_parent (of_content content)

unfoldable pub process_ticks : Option Bytes → ℕ × ℕ
unfolding stat_ticks of_content
process_ticks content = stat_ticks (of_content content)
