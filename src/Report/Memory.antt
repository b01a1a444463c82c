-- ===== src/Report/Memory.antt =====
-- `parseKeyed` of tools/cmd/invirtio/memory.go, with what it uses of Go's `strings` and `strconv`. An
-- int64 is its 64 bits. A map is the list of what was set, the last first.
pub mod Decimals
use vkage.Base.{
  ℕ, ◌+◌, ◌-◌, ◌*◌, ◌%◌, ◌^◌, Bool, true, ◌&&◌, ◌||◌, List, [], ◌∷◌, ◌++◌, Option, none, some,
  Bytes, codes, str_eq, split, take, drop, is_digit, scan_digits, ◌==◌, leb, if◌then◌else◌, Result,
  ok, err,
}
use vkage.Utf8.{runes}
use vkage.Config.Sizes.{max_int64}

-- `unicode.IsSpace`.
unfoldable pub is_space : ℕ → Bool
is_space r =
    leb 0x09 r && leb r 0x0d
    || r == 0x20
    || r == 0x85
    || r == 0xa0
    || r == 0x1680
    || leb 0x2000 r && leb r 0x200a
    || r == 0x2028
    || r == 0x2029
    || r == 0x202f
    || r == 0x205f
    || r == 0x3000

-- A field that is not empty, in front of the others.
abbrev with_field : Bytes → List Bytes → List Bytes
with_field [] fs = fs
with_field (b ∷ f) fs = (b ∷ f) ∷ fs

-- `strings.Fields`, over the runes of the text; `cur` is what the field has so far.
fields_onto : List (ℕ × ℕ) → Bytes → Bytes → List Bytes
unfolding is_space
fields_onto [] s cur = with_field cur []
fields_onto ((r, size) ∷ rs) s cur =
    let next = fields_onto rs (drop size s) [] in
    let grow = fields_onto rs (drop size s) (cur ++ take size s) in
    if is_space r then with_field cur next else grow

unfoldable pub fields : Bytes → List Bytes
unfolding fields_onto
fields s = fields_onto (runes s) s []

-- `strings.TrimSuffix` of a colon.
unfoldable pub trim_colon : Bytes → Bytes
trim_colon [] = []
trim_colon (b ∷ []) = if b == b':' then [] else b ∷ []
trim_colon (b ∷ c ∷ s) = b ∷ trim_colon (c ∷ s)

all_digits : Bytes → Bool
all_digits [] = true
all_digits (b ∷ s) = is_digit b && all_digits s

-- The digits of a number, of which there is one at least.
unsigned : Bytes → Option ℕ
unfolding all_digits scan_digits
unsigned [] = none
unsigned (b ∷ s) = if all_digits (b ∷ s) then some (scan_digits 0 (b ∷ s)) else none

-- A magnitude up to a bound.
at_most : ℕ → Option ℕ → Option ℕ
at_most bound none = none
at_most bound (some n) = if leb n bound then some n else none

-- The 64 bits of a negative number.
negated : Option ℕ → Option ℕ
negated none = none
negated (some n) = some ((2 ^ 64 - n) % 2 ^ 64)

-- `strconv.ParseInt` in base 10 for an int64, `none` where it has an error.
unfoldable pub parse_int : Bytes → Option ℕ
unfolding unsigned at_most negated
parse_int [] = none
parse_int (b ∷ s) =
    if b == b'-'
    then negated (at_most (max_int64 + 1) (unsigned s))
    else if b == b'+'
    then at_most max_int64 (unsigned s)
    else at_most max_int64 (unsigned (b ∷ s))

abbrev pub Keyed : Type 0
Keyed = List (Bytes × ℕ)

-- `m[key]`, zero where it was not set.
unfoldable pub keyed : Bytes → Keyed → ℕ
keyed key [] = 0
keyed key ((k, n) ∷ m) = let rest = keyed key m in if str_eq k key then n else rest

-- The shift by 10 of a number in kB, of a line of three fields.
scaled : List Bytes → ℕ → ℕ
scaled [] n = n
scaled (unit ∷ []) n = if str_eq unit (codes "kB") then n * 1024 % 2 ^ 64 else n
scaled (unit ∷ f ∷ fs) n = n

set_number : Bytes → List Bytes → Option ℕ → Keyed → Keyed
unfolding scaled
set_number name rest none m = m
set_number name rest (some n) m = (trim_colon name, scaled rest n) ∷ m

-- A round of the loop over the lines.
keyed_line : List Bytes → Keyed → Keyed
unfolding set_number parse_int
keyed_line [] m = m
keyed_line (name ∷ []) m = m
keyed_line (name ∷ number ∷ rest) m = set_number name rest (parse_int number) m

keyed_lines : List Bytes → Keyed → Keyed
unfolding keyed_line fields
keyed_lines [] m = m
keyed_lines (l ∷ ls) m = keyed_lines ls (keyed_line (fields l) m)

unfoldable pub parse_keyed : Bytes → Keyed
unfolding keyed_lines
parse_keyed text = keyed_lines (split text b'\n') []

-- `readBytes`, of what `sysfs.Read` gave; max is -1.
pub data Amount : Type 0 where
  unlimited : Amount
  amount : ℕ → Amount

parsed_amount : Option ℕ → Option Amount
parsed_amount none = none
parsed_amount (some n) = some (amount n)

unfoldable pub read_bytes : {E : Type 0} → Result E Bytes → Option Amount
unfolding parsed_amount parse_int
read_bytes (err e) = none
read_bytes (ok s) = if str_eq s (codes "max") then some unlimited else parsed_amount (parse_int s)

-- `pinnedMemory`, of the texts of the processes' status files, without those that are gone.
unfoldable pub pinned_total : List Bytes → ℕ → ℕ
unfolding parse_keyed keyed
pinned_total [] total = total
pinned_total (status ∷ ss) total =
    let st = parse_keyed status in
    pinned_total ss ((total + (keyed (codes "VmPin") st + keyed (codes "VmLck") st)) % 2 ^ 64)
