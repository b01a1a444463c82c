-- ===== src/Harness/Masks/Ranges.antt =====
-- A list of CPUs and of ranges of them, as it is printed, is parsed to the mask of those CPUs.
use vkage.Base.{
  ℕ, suc, ◌-◌, ◌≤◌, ◌≡◌, refl, Bool, false, ◌&&◌, ◌||◌, List, [], ◌∷◌, ◌++◌, map, none, some, Bytes,
  codes, leb, ◌==◌, if◌then◌else◌, arith, All, All-append, decimal, cut_prefix, has_prefix,
}
use vkage.Base.Text.Parts.{IsPart}
use vkage.Harness.Masks.Text.{split-join_groups}
use vkage.Base.Text.Decimal.{IsDigit, decimal-IsDigit}
use vkage.Pci.Address.{cut}
use vkage.Config.Sizes.{max_int64}
use vkage.Report.Memory.Decimals.{parse_int-decimal}
use vkage.Harness.Masks.{
  Mask, set_range, range_count, set_ends, parse_range, parse_ranges, parse_cpu_list, join_groups,
  cpu,
}
use vkage.Harness.Masks.Laws.{IsMask, cpu-set_range, cpu_none, set_range-IsMask}

-- What a CPU list names.
pub data Range : Type 0 where
  single : ℕ → Range
  from_to : ℕ → ℕ → Range

pub print_range : Range → Bytes
print_range (single a) = decimal a
print_range (from_to a z) = decimal a ++ b'-' ∷ decimal z

-- The ends fit an int.
unfoldable pub Fits : Range → Type 0
Fits (single a) = a ≤ max_int64
Fits (from_to a z) = (a ≤ max_int64) × (z ≤ max_int64)

pub in_range : ℕ → Range → Bool
in_range c (single a) = c == a
in_range c (from_to a z) = leb a c && leb c z

pub listed : ℕ → List Range → Bool
unfolding in_range
listed c [] = false
listed c (r ∷ rs) = in_range c r || listed c rs

cut-digits : (s t : Bytes) → All IsDigit s → cut (s ++ b'-' ∷ t) (codes "-") ≡ some (s, t)
unfolding cut cut_prefix has_prefix
cut-digits [] t h = refl
cut-digits (b ∷ s) t (p, h) =
    let other : (b == b'-') ≡ false = ground arith in rw (cut, other, cut-digits s t h) refl

cut-digits_only : (s : Bytes) → All IsDigit s → cut s (codes "-") ≡ none
unfolding cut cut_prefix has_prefix
cut-digits_only [] h = refl
cut-digits_only (b ∷ s) (p, h) =
    let other : (b == b'-') ≡ false = ground arith in rw (cut, other, cut-digits_only s h) refl

count : (a z : ℕ) → z ≤ max_int64 → range_count a z ≡ suc z - a
unfolding range_count
count a z h = ground arith

-- A range adds its CPUs.
abbrev Adds : Range → Mask → Mask → Type 0
Adds r m n = (IsMask m → IsMask n) × ((c : ℕ) → cpu n c ≡ (if in_range c r then 1 else cpu m c))

parse_printed_range :
    (r : Range) (m : Mask)
    → Fits r
    → (n : Mask) × (parse_range (cut (print_range r) (codes "-")) (print_range r) m ≡ some n)
      × Adds r m n
unfolding parse_range set_ends print_range Fits in_range range_count
parse_printed_range (single a) m h = (
  set_range 1 a m,
  rw (cut-digits_only (decimal a) (decimal-IsDigit a), parse_int-decimal a h, count a a h)
      (let e : suc a - a ≡ 1 = omega arith in rw e refl),
  (set_range-IsMask 1 a m, λ c. ground (arith, cpu-set_range 1 a m c)),
)
parse_printed_range (from_to a z) m (h, k) = (
  set_range (suc z - a) a m,
  rw
      (
        cut-digits (decimal a) (decimal z) (decimal-IsDigit a),
        parse_int-decimal a h,
        parse_int-decimal z k,
        count a z k,
      )
      refl,
  (set_range-IsMask (suc z - a) a m, λ c. ground (arith, cpu-set_range (suc z - a) a m c)),
)

abbrev AddAll : List Range → Mask → Mask → Type 0
AddAll rs m n = (IsMask m → IsMask n) × ((c : ℕ) → cpu n c ≡ (if listed c rs then 1 else cpu m c))

parse_printed_ranges :
    (rs : List Range) (m : Mask)
    → All Fits rs
    → (n : Mask) × (parse_ranges (map print_range rs) (some m) ≡ some n) × AddAll rs m n
unfolding parse_ranges listed
parse_printed_ranges [] m h = (m, refl, (λ i. i, λ c. refl))
parse_printed_ranges (r ∷ rs) m (p, h) =
    let (k, e, (i, f)) = parse_printed_range r m p in
    let (n, d, (j, g)) = parse_printed_ranges rs k h in
    (n, rw (parse_ranges, e, d) refl, (λ x. j (i x), λ c. ground (arith, f c, g c)))

IsDigit-IsPart : (s : Bytes) → All IsDigit s → IsPart b',' s
IsDigit-IsPart [] h = tt
IsDigit-IsPart (b ∷ s) (p, h) = (ground arith, IsDigit-IsPart s h)

decimal-IsPart : (n : ℕ) → IsPart b',' (decimal n)
decimal-IsPart n = IsDigit-IsPart (decimal n) (decimal-IsDigit n)

print_range-IsPart : (r : Range) → IsPart b',' (print_range r)
unfolding print_range
print_range-IsPart (single a) = decimal-IsPart a
print_range-IsPart (from_to a z) =
    All-append (λ b. (b == b',') ≡ false) (decimal a) (b'-' ∷ decimal z) (decimal-IsPart a)
      (refl, decimal-IsPart z)

parts : (rs : List Range) → All (IsPart b',') (map print_range rs)
parts [] = tt
parts (r ∷ rs) = (print_range-IsPart r, parts rs)

-- A CPU list of one range or more, whose numbers fit an int, is parsed as it is printed: the mask
-- has exactly the CPUs of the ranges, and its words fit 64 bits.
pub parse_cpu_list-print :
    (r : Range) (rs : List Range)
    → All Fits (r ∷ rs)
    → (m : Mask) × (parse_cpu_list (join_groups (map print_range (r ∷ rs))) ≡ some m)
      × IsMask m
      × ((c : ℕ) → cpu m c ≡ (if listed c (r ∷ rs) then 1 else 0))
unfolding parse_cpu_list
parse_cpu_list-print r rs h =
    let (m, e, (i, f)) = parse_printed_ranges (r ∷ rs) [] h in
    (
      m,
      rw (split-join_groups (print_range r) (map print_range rs) (parts (r ∷ rs))) e,
      i tt,
      λ c. ground (arith, f c, cpu_none c),
    )
