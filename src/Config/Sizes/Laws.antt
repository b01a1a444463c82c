-- ===== src/Config/Sizes/Laws.antt =====
-- What `parseSize` accepts, and what it and `memoryMax` then return.
use vkage.Base.{
  ℕ, ◌+◌, ◌*◌, ◌/◌, ◌%◌, ◌^◌, ◌≤◌, ◌<◌, ◌≡◌, refl, sym, ap, ◌∙◌, ◌⊎◌, inl, inr, false, [], ◌∷◌,
  ◌++◌, append-nil, some, Bytes, decimal, scan_digits, str_eq_iff, arith, All,
}
use mathlib.Core.Path.{subst}
use vkage.Base.Text.Decimal.{IsDigit, decimal-IsDigit, decimal_cons, scan_digits-decimal}
use vkage.Config.Sizes.{
  max_int64, unit_shift, unsnoc, split_unit, scan, shifted, parse_size, is_positive, memory_max,
}

-- A size's unit, as a suffix, and its shift.
pub data IsUnit : Bytes → ℕ → Type 0 where
  no_unit : IsUnit [] 0
  unit : (b : ℕ) → 0 < unit_shift b → IsUnit (b ∷ []) (unit_shift b)

unit_shift_cases :
    (b : ℕ) → (unit_shift b ≡ 0) ⊎ (unit_shift b ≡ 10) ⊎ (unit_shift b ≡ 20) ⊎ (unit_shift b ≡ 30)
unfolding unit_shift
unit_shift_cases b = ground arith

abbrev Scaled : ℕ → ℕ → Type 0
Scaled n k =
    n ≤ max_int64 / 2 ^ k
    → (n ≤ max_int64) × (n * 2 ^ k ≤ max_int64) × (n * 2 ^ k % 2 ^ 64 ≡ n * 2 ^ k)

-- A number that is at most the largest int64 shifted right fits an int64 when it is shifted left.
scaled : (n k : ℕ) → (k ≡ 0) ⊎ (k ≡ 10) ⊎ (k ≡ 20) ⊎ (k ≡ 30) → Scaled n k
scaled n k (inl e) = subst (Scaled n) (sym e) (λ h. (omega arith, omega arith, omega arith))
scaled n k (inr (inl e)) = subst (Scaled n) (sym e) (λ h. (omega arith, omega arith, omega arith))
scaled n k (inr (inr (inl e))) =
    subst (Scaled n) (sym e) (λ h. (omega arith, omega arith, omega arith))
scaled n k (inr (inr (inr e))) =
    subst (Scaled n) (sym e) (λ h. (omega arith, omega arith, omega arith))

IsUnit-shift : (u : Bytes) (k : ℕ) → IsUnit u k → (k ≡ 0) ⊎ (k ≡ 10) ⊎ (k ≡ 20) ⊎ (k ≡ 30)
IsUnit-shift _ _ no_unit = inl refl
IsUnit-shift _ _ (unit b h) = unit_shift_cases b

unsnoc_last : (b : ℕ) (s : Bytes) (u : ℕ) → unsnoc b (s ++ u ∷ []) ≡ (b ∷ s, u)
unfolding unsnoc
unsnoc_last b [] u = refl
unsnoc_last b (c ∷ s) u = rw (unsnoc_last c s u) refl

unsnoc-IsDigit : (b : ℕ) (s : Bytes) → All IsDigit (b ∷ s) → IsDigit (unsnoc b s).1
unfolding unsnoc
unsnoc-IsDigit b [] (h, t) = h
unsnoc-IsDigit b (c ∷ s) (h, t) = unsnoc-IsDigit c s t

unit_shift_digit : (b : ℕ) → IsDigit b → unit_shift b ≡ 0
unfolding unit_shift
unit_shift_digit b h = ground arith

-- The number of a text that is a unit behind a decimal form.
split_unit-decimal :
    (n : ℕ) (u : Bytes) (k : ℕ) → IsUnit u k → split_unit (decimal n ++ u) ≡ (decimal n, k)
unfolding split_unit
split_unit-decimal n _ _ no_unit =
    let (d, s, e) = decimal_cons n in
    let digits : All IsDigit (d ∷ s) = subst (All IsDigit) e (decimal-IsDigit n) in
    let none' = unit_shift_digit (unsnoc d s).1 (unsnoc-IsDigit d s digits) in
    rw (append-nil, e, none') refl
split_unit-decimal n _ _ (unit b h) =
    let (d, s, e) = decimal_cons n in rw (e, unsnoc_last d s b) (ground arith)

scan_cons :
    (d : ℕ) (s : Bytes) (n : ℕ)
    → IsDigit d
    → scan_digits 0 (d ∷ s) ≡ n
    → n ≤ max_int64
    → scan (d ∷ s) ≡ some n
unfolding scan
scan_cons d s n digit value h = ground arith

scan-decimal : (n : ℕ) → n ≤ max_int64 → scan (decimal n) ≡ some n
scan-decimal n h =
    let (d, s, e) = decimal_cons n in
    ap scan e
    ∙ scan_cons d s n (subst (All IsDigit) e (decimal-IsDigit n)).0
        (ap (scan_digits 0) (sym e) ∙ scan_digits-decimal n) h

shifted-some :
    (num : Bytes) (k n : ℕ)
    → 0 < n
    → decimal n ≡ num
    → n ≤ max_int64 / 2 ^ k
    → shifted num k (some n) ≡ some (n * 2 ^ k % 2 ^ 64)
unfolding shifted
shifted-some num k n pos e h = ground (arith, str_eq_iff (decimal n) num)

-- Every decimal form, without zeros in front, of a number from 1 on, with nothing or one K, M or G of
-- either case behind it, is taken where its size fits an int64, and gives this size.
pub parse_size-decimal :
    (n : ℕ) (u : Bytes) (k : ℕ)
    → IsUnit u k
    → 0 < n
    → n ≤ max_int64 / 2 ^ k
    → parse_size (decimal n ++ u) ≡ some (n * 2 ^ k)
unfolding parse_size
parse_size-decimal n u k i pos h =
    let (small, fits, same) = scaled n k (IsUnit-shift u k i) h in
    ap (λ (r : Bytes × ℕ). shifted r.0 r.1 (scan r.0)) (split_unit-decimal n u k i)
    ∙ ap (shifted (decimal n) k) (scan-decimal n small)
    ∙ shifted-some (decimal n) k n pos refl h
    ∙ ap some same

-- What the conditions say of a number that passes them.
data Passed (num : Bytes) (k v : ℕ) : Type 0 where
  passed :
      (n : ℕ)
      → 0 < n
      → decimal n ≡ num
      → n ≤ max_int64 / 2 ^ k
      → n * 2 ^ k % 2 ^ 64 ≡ v
      → Passed num k v

-- `memoryMax` returns a field that is positive, and otherwise the memory's size and 512 MiB, where
-- their sum is an int64: the limit is then positive, and above the memory.
pub memory_max_above :
    (field mem : ℕ) (memory : Bytes)
    → is_positive field ≡ false
    → parse_size memory ≡ some mem
    → mem + 536870912 ≤ max_int64
    → (limit : ℕ) × (memory_max field memory ≡ some limit) × (mem < limit) × (limit ≤ max_int64)
unfolding memory_max
memory_max_above field mem memory none' e fits =
    (mem + 536870912, rw (none', e) (ground arith), omega arith, fits)
