-- ===== src/Harness/Masks.antt =====
-- CPU masks and lists, of tools/internal/harness/cpu.go. A mask is its 64-bit words, the first CPUs
-- first.
pub mod Bits
pub mod Laws
pub mod Groups
pub mod Text
pub mod Format
pub mod Ranges
pub mod Words
use Prim.Native.Nat.{bit_and, bit_or}
use vkage.Base.{
  ℕ, zero, suc, ◌+◌, ◌-◌, ◌*◌, ◌/◌, ◌%◌, ◌^◌, Bool, true, false, not, ◌&&◌, ◌||◌, List, [], ◌∷◌,
  ◌++◌, Option, none, some, Bytes, codes, str_eq, split, leb, ltb, ◌==◌, if◌then◌else◌, length,
  get_or,
}
use vkage.Pci.Address.{cut}
use vkage.Config.Sizes.{max_int64}
use vkage.Report.Memory.{parse_int, is_space}
use Bits.{digit}

abbrev pub Mask : Type 0
Mask = List ℕ

-- The loop of `SetBit` that appends zeros until the mask holds the word.
unfoldable pub grow : Mask → ℕ → Mask
grow [] zero = 0 ∷ []
grow [] (suc i) = 0 ∷ grow [] i
grow (w ∷ ws) zero = w ∷ ws
grow (w ∷ ws) (suc i) = w ∷ grow ws i

-- `mask[i] |= m`.
unfoldable pub or_at : Mask → ℕ → ℕ → Mask
or_at [] i m = []
or_at (w ∷ ws) zero m = bit_or w m ∷ ws
or_at (w ∷ ws) (suc i) m = w ∷ or_at ws i m

unfoldable pub set_bit : Mask → ℕ → Mask
unfolding grow or_at
set_bit mask bit = or_at (grow mask (bit / 64)) (bit / 64) (2 ^ (bit % 64))

unfoldable pub intersects : Mask → Mask → Bool
intersects [] b = false
intersects (v ∷ a) [] = false
intersects (v ∷ a) (w ∷ b) = not (bit_and v w == 0) || intersects a b

-- The loop of `ParseCPUList` from a CPU over so many.
unfoldable pub set_range : ℕ → ℕ → Mask → Mask
unfolding set_bit
set_range zero c mask = mask
set_range (suc n) c mask = set_range n (suc c) (set_bit mask c)

-- `c <= z` holds for no c when z is negative, which is beyond the largest int64 as its 64 bits.
unfoldable pub range_count : ℕ → ℕ → ℕ
range_count a z = if leb z max_int64 then suc z - a else 0

set_ends : Option ℕ → Option ℕ → Mask → Option Mask
unfolding set_range range_count
set_ends none z mask = none
set_ends (some a) none mask = none
set_ends (some a) (some z) mask = some (set_range (range_count a z) a mask)

-- A round of the loop over the ranges, of what `strings.Cut` gave.
parse_range : Option (Bytes × Bytes) → Bytes → Mask → Option Mask
unfolding set_ends parse_int
parse_range none r mask = set_ends (parse_int r) (parse_int r) mask
parse_range (some (lo, hi)) r mask = set_ends (parse_int lo) (parse_int hi) mask

-- The loop over the ranges, of the mask so far; an error ends it.
parse_ranges : List Bytes → Option Mask → Option Mask
unfolding parse_range
parse_ranges rs none = none
parse_ranges [] (some mask) = some mask
parse_ranges (r ∷ rs) (some mask) = parse_ranges rs (parse_range (cut r (codes "-")) r mask)

-- `none` is the error.
unfoldable pub parse_cpu_list : Bytes → Option Mask
unfolding parse_ranges split
parse_cpu_list list = parse_ranges (split list b',') (some [])

-- A hexadecimal digit's value.
hex_value : ℕ → Option ℕ
hex_value b =
    if leb b'0' b && leb b b'9'
    then some (b - b'0')
    else if leb b'a' b && leb b b'f'
    then some (b - b'a' + 10)
    else if leb b'A' b && leb b b'F'
    then some (b - b'A' + 10)
    else none

-- The digits of a number behind what those before stand for.
scan_hex : Bytes → Option ℕ → ℕ → Option ℕ
scan_hex s none n = none
scan_hex [] (some d) n = some (n * 16 + d)
scan_hex (b ∷ s) (some d) n = scan_hex s (hex_value b) (n * 16 + d)

word32 : Option ℕ → Option ℕ
word32 none = none
word32 (some n) = if ltb n (2 ^ 32) then some n else none

-- `strconv.ParseUint` in base 16 for 32 bits, `none` where it has an error.
unfoldable pub parse_hex : Bytes → Option ℕ
unfolding hex_value scan_hex word32
parse_hex [] = none
parse_hex (b ∷ s) = word32 (scan_hex s (hex_value b) 0)

-- The loop over the bits of a group, from a bit over so many; the group's first CPU is `first`.
unfoldable pub set_digits : ℕ → ℕ → ℕ → ℕ → Mask → Mask
unfolding set_bit
set_digits zero bit first v mask = mask
set_digits (suc n) bit first v mask =
    let next = if bit_and v (2 ^ bit) == 0 then mask else set_bit mask (first + bit) in
    set_digits n (suc bit) first v next

set_group : ℕ → Option ℕ → Option Mask → Option Mask
unfolding set_digits
set_group i v none = none
set_group i none (some mask) = none
set_group i (some v) (some mask) = some (set_digits 32 0 (32 * i) v mask)

-- `strings.TrimSpace`, on ASCII.
trim_left : Bytes → Bytes
unfolding is_space
trim_left [] = []
trim_left (b ∷ s) = let rest = trim_left s in if is_space b then rest else b ∷ s

with_byte : ℕ → Bytes → Bytes
unfolding is_space
with_byte b [] = if is_space b then [] else b ∷ []
with_byte b (c ∷ s) = b ∷ c ∷ s

trim_right : Bytes → Bytes
unfolding with_byte
trim_right [] = []
trim_right (b ∷ s) = with_byte b (trim_right s)

unfoldable pub trim_space : Bytes → Bytes
unfolding trim_left trim_right
trim_space s = trim_right (trim_left s)

-- The loop over the groups, from the last to the first.
unfoldable pub parse_groups : List Bytes → Option Mask
unfolding set_group parse_hex
parse_groups [] = some []
parse_groups (g ∷ gs) = set_group (length gs) (parse_hex g) (parse_groups gs)

-- `none` is the error.
unfoldable pub parse_mask : Bytes → Option Mask
unfolding parse_groups split trim_space
parse_mask s = parse_groups (split (trim_space s) b',')

hex_digit : ℕ → ℕ
hex_digit d = if leb d 9 then b'0' + d else b'a' + (d - 10)

-- So many digits of a number.
hex_onto : ℕ → ℕ → Bytes → Bytes
unfolding hex_digit
hex_onto zero n out = out
hex_onto (suc k) n out = hex_onto k (n / 16) (hex_digit (n % 16) ∷ out)

-- `%08x` of a number of 32 bits.
unfoldable pub hex8 : ℕ → Bytes
unfolding hex_onto
hex8 n = hex_onto 8 n []

-- The loop over the words, from the last to the first.
unfoldable pub groups_of : Mask → List Bytes
unfolding hex8
groups_of [] = []
groups_of (w ∷ ws) = groups_of ws ++ hex8 (w / 2 ^ 32) ∷ hex8 (bit_and w 0xffffffff) ∷ []

unfoldable pub drop_zeros : List Bytes → List Bytes
drop_zeros [] = []
drop_zeros (g ∷ []) = g ∷ []
drop_zeros (g ∷ h ∷ gs) =
    let rest = drop_zeros (h ∷ gs) in if str_eq g (codes "00000000") then rest else g ∷ h ∷ gs

-- `strings.Join` with a comma.
unfoldable pub join_groups : List Bytes → Bytes
join_groups [] = []
join_groups (g ∷ []) = g
join_groups (g ∷ h ∷ gs) = g ++ b',' ∷ join_groups (h ∷ gs)

formatted : List Bytes → Bytes
unfolding join_groups
formatted [] = codes "00000000"
formatted (g ∷ gs) = join_groups (g ∷ gs)

unfoldable pub format_mask : Mask → Bytes
unfolding groups_of drop_zeros formatted
format_mask mask = formatted (drop_zeros (groups_of mask))

-- Whether a mask has a CPU, as its bit.
unfoldable pub cpu : Mask → ℕ → ℕ
unfolding Bits.digit
cpu mask c = digit (get_or mask (c / 64) 0) (c % 64)
