-- ===== src/Report/Memory/Decimals.antt =====
-- `strconv.ParseInt` reads back the numbers that are printed in decimal.
use vkage.Base.{
  ℕ, ◌≤◌, ◌≡◌, refl, true, false, [], ◌∷◌, some, Bytes, decimal, scan_digits, leb, ◌==◌, All, arith,
}
use mathlib.Core.Path.{subst}
use vkage.Base.Text.Decimal.{IsDigit, decimal-IsDigit, decimal_cons, scan_digits-decimal}
use vkage.Config.Sizes.{max_int64}
use vkage.Report.Memory.{all_digits, unsigned, at_most, parse_int}

all_digits-IsDigit : (s : Bytes) → All IsDigit s → all_digits s ≡ true
unfolding all_digits
all_digits-IsDigit [] h = refl
all_digits-IsDigit (b ∷ s) (p, h) = rw (p, all_digits-IsDigit s h) refl

parse_int-digits :
    (b n : ℕ) (s : Bytes)
    → All IsDigit (b ∷ s)
    → scan_digits 0 (b ∷ s) ≡ n
    → n ≤ max_int64
    → parse_int (b ∷ s) ≡ some n
unfolding parse_int unsigned at_most
parse_int-digits b n s (p, h) e l =
    let minus : (b == b'-') ≡ false = ground arith in
    let plus : (b == b'+') ≡ false = ground arith in
    let fits : leb n max_int64 ≡ true = ground arith in
    rw (minus, plus, all_digits-IsDigit (b ∷ s) (p, h), e, fits) refl

pub parse_int-decimal : (n : ℕ) → n ≤ max_int64 → parse_int (decimal n) ≡ some n
parse_int-decimal n l =
    let (d, s, e) = decimal_cons n in
    let digits : All IsDigit (d ∷ s) = subst (All IsDigit) e (decimal-IsDigit n) in
    rw e (parse_int-digits d n s digits (rw e at (scan_digits-decimal n)) l)
