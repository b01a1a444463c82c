-- ===== src/Config/Sizes.antt =====
-- `parseSize` and `memoryMax` of tools/cmd/invirtio/config.go. An int64 is the 64 bits that hold it.
pub mod Laws
use vkage.Base.{
  ℕ, ◌+◌, ◌*◌, ◌/◌, ◌%◌, ◌^◌, ◌-◌, Bool, true, false, not, ◌&&◌, ◌||◌, List, [], ◌∷◌, ◌++◌, Option,
  none, some, Bytes, codes, decimal, scan_digits, is_digit, lower, str_eq, ◌==◌, leb, ltb,
  if◌then◌else◌,
}

abbrev pub max_int64 : ℕ
max_int64 = 9223372036854775807

-- The shift of a unit, which is a K, M or G of either case.
unfoldable pub unit_shift : ℕ → ℕ
unit_shift b =
    if lower b == b'k'
    then 10
    else if lower b == b'm'
    then 20
    else if lower b == b'g'
    then 30
    else 0

-- A text that is not empty, without its last byte, and that byte.
pub unsnoc : ℕ → Bytes → Bytes × ℕ
unsnoc b [] = ([], b)
unsnoc b (c ∷ s) = let (front, last) = unsnoc c s in (b ∷ front, last)

-- The number's text and the shift.
pub split_unit : Bytes → Bytes × ℕ
unfolding unsnoc unit_shift
split_unit [] = ([], 0)
split_unit (b ∷ s) =
    let (front, last) = unsnoc b s in
    if unit_shift last == 0 then (b ∷ s, 0) else (front, unit_shift last)

-- `fmt.Sscanf` with %d: the digits in front, whatever follows them, if there are any and their
-- number is an int64. A space or a sign in front is an error here, since a number behind one is
-- refused by its decimal form or as negative.
pub scan : Bytes → Option ℕ
unfolding scan_digits
scan [] = none
scan (b ∷ s) =
    if is_digit b
    then (let n = scan_digits 0 (b ∷ s) in if leb n max_int64 then some n else none)
    else none

-- The conditions on the number that was scanned, and its shift to the left; `max_int64 / 2 ^ shift`
-- is `math.MaxInt64>>shift`.
pub shifted : Bytes → ℕ → Option ℕ → Option ℕ
shifted num shift none = none
shifted num shift (some n) =
    if n == 0 || not (str_eq (decimal n) num) || ltb (max_int64 / 2 ^ shift) n
    then none
    else some (n * 2 ^ shift % 2 ^ 64)

unfoldable pub parse_size : Bytes → Option ℕ
unfolding split_unit scan shifted
parse_size s = let (num, shift) = split_unit s in shifted num shift (scan num)

abbrev pub is_positive : ℕ → Bool
is_positive n = ltb 0 n && leb n max_int64

-- `memoryMax`, of the field of the same name and of what `memory` returns.
unfoldable pub memory_max : ℕ → Bytes → Option ℕ
unfolding parse_size
memory_max field memory =
    if is_positive field
    then some field
    else elim (parse_size memory) [ none ↦ none | some mem ↦ some ((mem + 536870912) % 2 ^ 64) ]
