-- ===== src/Harness/Masks/Words.antt =====
-- The words of what is parsed fit 64 bits.
use vkage.Base.{ℕ, ◌*◌, ◌≡◌, List, [], ◌∷◌, Option, none, some, Bytes, codes, length, split}
use mathlib.Core.Path.{subst}
use vkage.Pci.Address.{cut}
use vkage.Report.Memory.{parse_int}
use vkage.Harness.Masks.{
  Mask, range_count, set_ends, parse_range, parse_ranges, parse_cpu_list, set_group, parse_hex,
  parse_groups, trim_space, parse_mask,
}
use vkage.Harness.Masks.Laws.{IsMask, set_range-IsMask}
use vkage.Harness.Masks.Groups.{set_digits-IsMask}

-- Where there is a mask, its words fit.
abbrev Fit : Option Mask → Type 0
Fit none = Unit
Fit (some m) = IsMask m

set_ends-Fit : (a z : Option ℕ) (m : Mask) → IsMask m → Fit (set_ends a z m)
unfolding set_ends
set_ends-Fit none z m h = tt
set_ends-Fit (some a) none m h = tt
set_ends-Fit (some a) (some z) m h = set_range-IsMask (range_count a z) a m h

parse_range-Fit :
    (o : Option (Bytes × Bytes)) (r : Bytes) (m : Mask) → IsMask m → Fit (parse_range o r m)
unfolding parse_range
parse_range-Fit none r m h = set_ends-Fit (parse_int r) (parse_int r) m h
parse_range-Fit (some (lo, hi)) r m h = set_ends-Fit (parse_int lo) (parse_int hi) m h

parse_ranges-Fit : (rs : List Bytes) (o : Option Mask) → Fit o → Fit (parse_ranges rs o)
unfolding parse_ranges
parse_ranges-Fit rs none h = tt
parse_ranges-Fit [] (some m) h = h
parse_ranges-Fit (r ∷ rs) (some m) h =
    parse_ranges-Fit rs (parse_range (cut r (codes "-")) r m)
      (parse_range-Fit (cut r (codes "-")) r m h)

pub parse_cpu_list-IsMask : (s : Bytes) (m : Mask) → parse_cpu_list s ≡ some m → IsMask m
unfolding parse_cpu_list
parse_cpu_list-IsMask s m e = subst Fit e (parse_ranges-Fit (split s b',') (some []) tt)

set_group-Fit : (i : ℕ) (v : Option ℕ) (o : Option Mask) → Fit o → Fit (set_group i v o)
unfolding set_group
set_group-Fit i v none h = tt
set_group-Fit i none (some m) h = tt
set_group-Fit i (some v) (some m) h = set_digits-IsMask 32 0 (32 * i) v m h

parse_groups-Fit : (gs : List Bytes) → Fit (parse_groups gs)
unfolding parse_groups
parse_groups-Fit [] = tt
parse_groups-Fit (g ∷ gs) =
    set_group-Fit (length gs) (parse_hex g) (parse_groups gs) (parse_groups-Fit gs)

pub parse_mask-IsMask : (s : Bytes) (m : Mask) → parse_mask s ≡ some m → IsMask m
unfolding parse_mask
parse_mask-IsMask s m e = subst Fit e (parse_groups-Fit (split (trim_space s) b','))
