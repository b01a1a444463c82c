-- ===== src/Harness/Masks/Bits.antt =====
-- Binary digits of numbers, and what the bit operations do to them.
use native.Mathlib.Nat.{div-div-eq-div-mul, one-le-pow}
use Prim.Native.Nat.{min, max, bit_and, bit_or, bitwise, digits, bit_and-bitwise, bit_or-bitwise}
use vkage.Base.{
  ℕ, zero, suc, ◌+◌, ◌-◌, ◌*◌, ◌/◌, ◌%◌, ◌^◌, ◌≤◌, ◌<◌, ◌≡◌, refl, inl, inr, false, ◌==◌, arith,
  Bool-cases, if◌then◌else◌, sym,
}

-- The digit of a number at a place, the lowest at zero.
unfoldable pub digit : ℕ → ℕ → ℕ
digit n zero = n % 2
digit n (suc k) = digit (n / 2) k

-- The steps that a bit operation is given beyond what its left operand needs change nothing.
module _ (only_right : ℕ → ℕ) (both : ℕ → ℕ → ℕ) where
  enough_digits :
      (m n a b : ℕ) → a ≤ m → a ≤ n → digits only_right both m a b ≡ digits only_right both n a b
  enough_digits zero zero a b _ _ = refl
  enough_digits zero (suc n) zero b _ _ = refl
  enough_digits (suc m) zero zero b _ _ = refl
  enough_digits (suc m) (suc n) zero b _ _ = refl
  enough_digits zero (suc n) (suc a) b h _ = absurd (omega arith)
  enough_digits (suc m) zero (suc a) b _ h = absurd (omega arith)
  enough_digits (suc m) (suc n) (suc a) b h k =
      rw (enough_digits m n (suc a / 2) (b / 2) (omega arith) (omega arith))

  lowest_digit :
      (a b : ℕ)
      → bitwise only_right both (suc a) b
        ≡ bitwise only_right both (suc a / 2) (b / 2) * 2 + both (suc a % 2) (b % 2)
  lowest_digit a b =
      omega (arith, enough_digits a (suc a / 2) (suc a / 2) (b / 2) (omega arith) (omega arith))

bit_or_rec : (a b : ℕ) → bit_or a b ≡ bit_or (a / 2) (b / 2) * 2 + max (a % 2) (b % 2)
bit_or_rec zero b = simp bit_or-bitwise (omega arith)
bit_or_rec (suc a) b = simp bit_or-bitwise (lowest_digit (λ y. y) max a b)

bit_and_rec : (a b : ℕ) → bit_and a b ≡ bit_and (a / 2) (b / 2) * 2 + min (a % 2) (b % 2)
bit_and_rec zero b = simp bit_and-bitwise (omega arith)
bit_and_rec (suc a) b = simp bit_and-bitwise (lowest_digit (λ y. 0) min a b)

bit_or-half : (a b : ℕ) → bit_or a b / 2 ≡ bit_or (a / 2) (b / 2)
bit_or-half a b = omega (arith, bit_or_rec a b)

bit_and-half : (a b : ℕ) → bit_and a b / 2 ≡ bit_and (a / 2) (b / 2)
bit_and-half a b = omega (arith, bit_and_rec a b)

pub digit-bit_or : (a b k : ℕ) → digit (bit_or a b) k ≡ max (digit a k) (digit b k)
unfolding digit
digit-bit_or a b zero = omega (arith, bit_or_rec a b)
digit-bit_or a b (suc k) = rw (bit_or-half a b) (digit-bit_or (a / 2) (b / 2) k)

pub digit-bit_and : (a b k : ℕ) → digit (bit_and a b) k ≡ min (digit a k) (digit b k)
unfolding digit
digit-bit_and a b zero = omega (arith, bit_and_rec a b)
digit-bit_and a b (suc k) = rw (bit_and-half a b) (digit-bit_and (a / 2) (b / 2) k)

pub digit-zero : (k : ℕ) → digit 0 k ≡ 0
unfolding digit
digit-zero zero = refl
digit-zero (suc k) = digit-zero k

pub digit_bound : (n k : ℕ) → digit n k < 2
unfolding digit
digit_bound n zero = omega arith
digit_bound n (suc k) = digit_bound (n / 2) k

half_power : (j : ℕ) → 2 ^ suc j / 2 ≡ 2 ^ j
half_power j = omega arith

pub digit-power : (j k : ℕ) → digit (2 ^ j) k ≡ (if j == k then 1 else 0)
unfolding digit
digit-power zero zero = refl
digit-power zero (suc k) = ground (arith, digit-zero k)
digit-power (suc j) zero = ground arith
digit-power (suc j) (suc k) = rw (half_power j) (ground (arith, digit-power j k))

-- A number that is not zero has a digit that is not, and one below 2 ^ b has it below b.
pub some_digit : (b n : ℕ) → n < 2 ^ b → 0 < n → (k : ℕ) × (k < b) × (digit n k ≡ 1)
unfolding digit
some_digit zero n h p = absurd (omega arith)
some_digit (suc b) n h p = elim (Bool-cases (n % 2 == 1)) [
  | inl e ↦ (0, omega arith, ground arith)
  | inr e ↦
      let (k, l, d) = some_digit b (n / 2) (omega arith) (ground arith) in (suc k, omega arith, d)
]

pub digit_above : (b n k : ℕ) → n < 2 ^ b → b ≤ k → digit n k ≡ 0
unfolding digit
digit_above zero n k h l = ground (arith, digit-zero k)
digit_above (suc b) n zero h l = absurd (omega arith)
digit_above (suc b) n (suc k) h l = digit_above b (n / 2) k (omega arith) (omega arith)

bit_or_nothing : (a b : ℕ) → a ≡ 0 → b ≡ 0 → bit_or a b ≡ 0
bit_or_nothing a b p q = rw (p, q) refl

pub bit_or_bound : (n a b : ℕ) → a < 2 ^ n → b < 2 ^ n → bit_or a b < 2 ^ n
bit_or_bound zero a b h k = omega (arith, bit_or_nothing a b (omega arith) (omega arith))
bit_or_bound (suc n) a b h k =
    omega (arith, bit_or_rec a b, bit_or_bound n (a / 2) (b / 2) (omega arith) (omega arith))

halves : (j n : ℕ) → n / 2 ^ suc j ≡ n / 2 / 2 ^ j
halves j n =
    let e : 2 ^ suc j ≡ 2 * 2 ^ j = omega arith in rw e (sym (div-div-eq-div-mul n 2 (2 ^ j)))

pub digit-shift : (j n k : ℕ) → digit (n / 2 ^ j) k ≡ digit n (j + k)
unfolding digit
digit-shift zero n k = ground arith
digit-shift (suc j) n k =
    let e : suc j + k ≡ suc (j + k) = omega arith in rw (halves j n, e) (digit-shift j (n / 2) k)

digit-ones : (j k : ℕ) → k < j → digit (2 ^ j - 1) k ≡ 1
unfolding digit
digit-ones zero k h = absurd (omega arith)
digit-ones (suc j) zero h = omega (arith, one-le-pow j 2 (omega arith))
digit-ones (suc j) (suc k) h =
    let e : (2 ^ suc j - 1) / 2 ≡ 2 ^ j - 1 = omega (arith, one-le-pow j 2 (omega arith)) in
    rw e (digit-ones j k (omega arith))

-- The low half of a number has the number's digits.
pub digit_low : (n k : ℕ) → k < 32 → digit (bit_and n 0xffffffff) k ≡ digit n k
digit_low n k h = omega (arith, digit-bit_and n 0xffffffff k, digit-ones 32 k h, digit_bound n k)

bit_and_nothing : (f a : ℕ) → a ≤ f → bit_and a 0 ≡ 0
bit_and_nothing zero a h = let e : a ≡ 0 = omega arith in rw e refl
bit_and_nothing (suc f) a h =
    omega (arith, bit_and_rec a 0, bit_and_nothing f (a / 2) (omega arith))

pub bit_and_bound : (n a b : ℕ) → b < 2 ^ n → bit_and a b < 2 ^ n
bit_and_bound zero a b h =
    let e : b ≡ 0 = omega arith in rw e (omega (arith, bit_and_nothing a a (omega arith)))
bit_and_bound (suc n) a b h =
    omega (arith, bit_and_rec a b, bit_and_bound n (a / 2) (b / 2) (omega arith))

-- The conjunction with a power of two is that power where the number has the digit.
bit_and-power : (k n : ℕ) → bit_and n (2 ^ k) ≡ digit n k * 2 ^ k
unfolding digit
bit_and-power zero n = omega (arith, bit_and_rec n 1, bit_and_nothing (n / 2) (n / 2) (omega arith))
bit_and-power (suc k) n =
    grind (arith, bit_and_rec n (2 ^ suc k), half_power k, bit_and-power k (n / 2))

pub has_digit : (n k : ℕ) → (bit_and n (2 ^ k) == 0) ≡ (digit n k == 0)
has_digit n k = ground (arith, bit_and-power k n, one-le-pow k 2 (omega arith), digit_bound n k)

pub power_bound : (j n : ℕ) → j < n → 2 ^ j < 2 ^ n
power_bound j zero h = absurd (omega arith)
power_bound zero (suc n) h = omega (arith, one-le-pow n 2 (omega arith))
power_bound (suc j) (suc n) h = omega (arith, power_bound j n (omega arith))

-- A number that has a digit is not zero.
pub digit-some : (n k : ℕ) → digit n k ≡ 1 → (n == 0) ≡ false
digit-some zero k h = absurd (omega (arith, digit-zero k))
digit-some (suc n) k h = ground arith
