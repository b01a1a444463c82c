-- ===== src/Base/Text/Decimal.antt =====
-- A number's decimal form is digits, at least one, and stands for the number.
use Prim.Native.Nat.{ℕ, zero, suc, ◌+◌, ◌/◌, ◌%◌, ◌<◌}
use mathlib.Core.Path.{◌≡◌, refl, ◌∙◌}
use mathlib.Core.Logic.{inl, inr}
use mathlib.Core.Bool.{true}
use mathlib.Core.List.{[], ◌∷◌}
use native.Mathlib.Omega.{arith}
use vkage.Base.Tests.{leb, Bool-cases}
use vkage.Base.Lists.{All}
use vkage.Base.Text.{Bytes, is_digit, scan_digits, digits_onto, decimal}

abbrev pub IsDigit : ℕ → Type 0
IsDigit b = is_digit b ≡ true

last_digit : (d : ℕ) → d < 10 → is_digit (b'0' + d) ≡ true
last_digit d h = ground arith

digits_onto-IsDigit : (f n : ℕ) (out : Bytes) → All IsDigit out → All IsDigit (digits_onto f n out)
unfolding digits_onto
digits_onto-IsDigit zero n out h = h
digits_onto-IsDigit (suc f) n out h = elim (Bool-cases (leb n 9)) [
  | inl e ↦ rw e (ground arith, h)
  | inr e ↦ rw e (
      digits_onto-IsDigit f (n / 10) ((b'0' + n % 10) ∷ out) (last_digit (n % 10) (omega arith), h))
]

scan_digits-digits_onto :
    (f n : ℕ) (out : Bytes) → n < f → scan_digits 0 (digits_onto f n out) ≡ scan_digits n out
unfolding digits_onto scan_digits
scan_digits-digits_onto zero n out h = absurd (omega arith)
scan_digits-digits_onto (suc f) n out h = elim (Bool-cases (leb n 9)) [
  | inl e ↦ rw e (ground arith)
  | inr e ↦
      rw e
        (scan_digits-digits_onto f (n / 10) ((b'0' + n % 10) ∷ out) (ground arith) ∙ ground arith)
]

digits_onto_cons :
    (f n b : ℕ) (out : Bytes) → (d : ℕ) × (s : Bytes) × (digits_onto f n (b ∷ out) ≡ d ∷ s)
unfolding digits_onto
digits_onto_cons zero n b out = (b, out, refl)
digits_onto_cons (suc f) n b out = elim (Bool-cases (leb n 9)) [
  | inl e ↦ rw e (b'0' + n, b ∷ out, refl)
  | inr e ↦ rw e (digits_onto_cons f (n / 10) (b'0' + n % 10) (b ∷ out))
]

digits_onto_first : (f n : ℕ) → (d : ℕ) × (s : Bytes) × (digits_onto (suc f) n [] ≡ d ∷ s)
unfolding digits_onto
digits_onto_first f n = elim (Bool-cases (leb n 9)) [
  | inl e ↦ rw e (b'0' + n, [], refl)
  | inr e ↦ rw e (digits_onto_cons f (n / 10) (b'0' + n % 10) [])
]

pub decimal_cons : (n : ℕ) → (d : ℕ) × (s : Bytes) × (decimal n ≡ d ∷ s)
unfolding decimal
decimal_cons n = digits_onto_first n n

pub decimal-IsDigit : (n : ℕ) → All IsDigit (decimal n)
unfolding decimal
decimal-IsDigit n = digits_onto-IsDigit (suc n) n [] tt

pub scan_digits-decimal : (n : ℕ) → scan_digits 0 (decimal n) ≡ n
unfolding decimal scan_digits
scan_digits-decimal n = scan_digits-digits_onto (suc n) n [] (omega arith)
