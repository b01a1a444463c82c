-- ===== src/Report/Sizes/Units.antt =====
-- The numbers of the sizes that are shown.
use vkage.Base.{
  ℕ, ◌+◌, ◌*◌, ◌≤◌, ◌<◌, ◌≡◌, refl, inl, inr, true, false, ◌++◌, Bytes, codes, decimal, ◌/◌, ◌%◌,
  [], ◌∷◌, arith, leb, Bool-cases,
}
use vkage.Config.Sizes.{max_int64}
use vkage.Run.Cgroup.{format_int64}
use vkage.Report.Sizes.{half_even, float64, hundredths, rounds_over, is_negative, format_size}

-- The number of units is the size in them to within a half.
abbrev pub Near : ℕ → ℕ → ℕ → Type 0
Near n unit m = (2 * n ≤ (2 * m + 1) * unit) × (2 * m * unit ≤ 2 * n + unit)

-- A quotient that is half of one or more, and less than 1023 and a half, rounds to a number from 1 to 1023.
half_even-kilo :
    (n : ℕ)
    → 1024 ≤ n
    → 2 * n < 2047 * 1024
    → (1 ≤ half_even n 1024) × (half_even n 1024 ≤ 1023) × Near n 1024 (half_even n 1024)
unfolding half_even
half_even-kilo n low high = ground arith

half_even-mega :
    (n : ℕ)
    → 2047 * 1024 ≤ 2 * n
    → 2 * n < 2047 * 1048576
    → (1 ≤ half_even n 1048576)
      × (half_even n 1048576 ≤ 1023)
      × Near n 1048576 (half_even n 1048576)
unfolding half_even
half_even-mega n low high = ground arith

half_even-giga :
    (n : ℕ)
    → 2047 * 1048576 ≤ 2 * n
    → (100 ≤ half_even (100 * n) 1073741824)
      × Near (100 * n) 1073741824 (half_even (100 * n) 1073741824)
unfolding half_even
half_even-giga n low = ground arith

-- A size as it is shown: with two decimals and 1.00 or more in G, with a number from 1 to 1023 in M or K,
-- or with less than 1024 bytes.
pub data Shown (n : ℕ) (s : Bytes) : Type 0 where
  in_giga :
      (c : ℕ)
      → 100 ≤ c
      → Near (100 * n) 1073741824 c
      → s ≡ (decimal (c / 100) ++ (b'.' ∷ (b'0' + c / 10 % 10) ∷ (b'0' + c % 10) ∷ [])) ++ codes "G"
      → Shown n s
  in_mega : (m : ℕ) → 1 ≤ m → m ≤ 1023 → Near n 1048576 m → s ≡ decimal m ++ codes "M" → Shown n s
  in_kilo : (k : ℕ) → 1 ≤ k → k ≤ 1023 → Near n 1024 k → s ≡ decimal k ++ codes "K" → Shown n s
  in_bytes : n < 1024 → s ≡ decimal n ++ codes "B" → Shown n s

float64-exact : (n : ℕ) → n < 9007199254740992 → float64 n ≡ n
unfolding float64
float64-exact n small = ground arith

-- A size that is not negative and less than 2^53, up to which a float64 is exact, is shown in a unit in
-- which it rounds to one or more, and not to 1024 or more where there is a larger unit; where what is
-- shown is the size in the unit to within a half, in G to within half of a hundredth.
pub format_size-Shown : (n : ℕ) → n < 9007199254740992 → Shown n (format_size n)
unfolding format_size format_int64 hundredths
format_size-Shown n small =
    let signed : is_negative n ≡ false = ground arith in
    let fits : leb n max_int64 ≡ true = ground arith in
    elim (Bool-cases (rounds_over n 1048576)) [
      | inl giga ↦
          let (low, near) = half_even-giga n (ground arith) in
          in_giga (half_even (100 * n) 1073741824) low near
            (rw (signed, float64-exact n small, giga) refl)
      | inr small_giga ↦ elim (Bool-cases (rounds_over n 1024)) [
        | inl mega ↦
            let (low, high, near) = half_even-mega n (ground arith) (ground arith) in
            in_mega (half_even n 1048576) low high near
              (rw (signed, float64-exact n small, small_giga, mega) refl)
        | inr small_mega ↦ elim (Bool-cases (leb 1024 n)) [
          | inl kilo ↦
              let (low, high, near) = half_even-kilo n (ground arith) (ground arith) in
              in_kilo (half_even n 1024) low high near
                (rw (signed, float64-exact n small, small_giga, small_mega, kilo) refl)
          | inr few ↦
              in_bytes (ground arith)
                (rw (signed, float64-exact n small, small_giga, small_mega, few, fits) refl)
        ]
      ]
    ]
