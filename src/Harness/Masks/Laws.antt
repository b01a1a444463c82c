-- ===== src/Harness/Masks/Laws.antt =====
-- Masks as sets of CPUs: what setting a CPU and a range of them does, and when two masks intersect.
use Prim.Native.Nat.{bit_and, bit_or}
use vkage.Base.{
  ℕ, zero, suc, ◌+◌, ◌/◌, ◌%◌, ◌^◌, ◌<◌, ◌≡◌, refl, inl, inr, true, ◌&&◌, ◌↔◌, [], ◌∷◌, leb, ltb,
  ◌==◌, if◌then◌else◌, arith, Bool-cases, All, get_or, sym, ap, ◌∙◌, ◌-◌,
}
use vkage.Harness.Masks.{Mask, grow, or_at, set_bit, intersects, set_range, cpu}
use vkage.Harness.Masks.Bits.{
  digit, digit-bit_or, digit-bit_and, digit-zero, digit_bound, digit-power, some_digit,
  bit_or_bound, bit_and_bound, power_bound, digit-some,
}

-- A mask whose words fit 64 bits.
abbrev pub IsMask : Mask → Type 0
IsMask mask = All (λ w. w < 2 ^ 64) mask

word-set :
    (m : Mask) (i j x : ℕ)
    → get_or (or_at (grow m i) i x) j 0 ≡ (if j == i then bit_or (get_or m j 0) x else get_or m j 0)
unfolding grow or_at
word-set [] zero zero x = refl
word-set [] zero (suc j) x = ground arith
word-set [] (suc i) zero x = ground arith
word-set [] (suc i) (suc j) x = ground (arith, word-set [] i j x)
word-set (w ∷ m) zero zero x = refl
word-set (w ∷ m) zero (suc j) x = ground arith
word-set (w ∷ m) (suc i) zero x = ground arith
word-set (w ∷ m) (suc i) (suc j) x = ground (arith, word-set m i j x)

pub cpu-set_bit : (m : Mask) (b c : ℕ) → cpu (set_bit m b) c ≡ (if c == b then 1 else cpu m c)
unfolding set_bit cpu
cpu-set_bit m b c = elim (Bool-cases (c / 64 == b / 64)) [
  | inl e ↦
      rw
        (
          word-set m (b / 64) (c / 64) (2 ^ (b % 64)),
          e,
          digit-bit_or (get_or m (c / 64) 0) (2 ^ (b % 64)) (c % 64),
          digit-power (b % 64) (c % 64),
        )
        (ground (arith, digit_bound (get_or m (c / 64) 0) (c % 64)))
  | inr e ↦ rw (word-set m (b / 64) (c / 64) (2 ^ (b % 64)), e) (ground arith)
]

grow-IsMask : (m : Mask) (i : ℕ) → IsMask m → IsMask (grow m i)
unfolding grow
grow-IsMask [] zero h = (omega arith, tt)
grow-IsMask [] (suc i) h = (omega arith, grow-IsMask [] i tt)
grow-IsMask (w ∷ m) zero h = h
grow-IsMask (w ∷ m) (suc i) (p, h) = (p, grow-IsMask m i h)

or_at-IsMask : (m : Mask) (i x : ℕ) → x < 2 ^ 64 → IsMask m → IsMask (or_at m i x)
unfolding or_at
or_at-IsMask [] i x l h = h
or_at-IsMask (w ∷ m) zero x l (p, h) = (bit_or_bound 64 w x p l, h)
or_at-IsMask (w ∷ m) (suc i) x l (p, h) = (p, or_at-IsMask m i x l h)

pub set_bit-IsMask : (m : Mask) (b : ℕ) → IsMask m → IsMask (set_bit m b)
unfolding set_bit
set_bit-IsMask m b h =
    or_at-IsMask (grow m (b / 64)) (b / 64) (2 ^ (b % 64)) (power_bound (b % 64) 64 (omega arith))
      (grow-IsMask m (b / 64) h)

pub set_range-IsMask : (n a : ℕ) (m : Mask) → IsMask m → IsMask (set_range n a m)
unfolding set_range
set_range-IsMask zero a m h = h
set_range-IsMask (suc n) a m h = set_range-IsMask n (suc a) (set_bit m a) (set_bit-IsMask m a h)

-- A range of CPUs is set, and no other CPU changes.
pub cpu-set_range :
    (n a : ℕ) (m : Mask) (c : ℕ)
    → cpu (set_range n a m) c ≡ (if leb a c && ltb c (a + n) then 1 else cpu m c)
unfolding set_range
cpu-set_range zero a m c = ground arith
cpu-set_range (suc n) a m c =
    ground (arith, cpu-set_range n (suc a) (set_bit m a) c, cpu-set_bit m a c)

-- A CPU of the first word, and one of the others.
cpu_first : (w : ℕ) (m : Mask) (c : ℕ) → c < 64 → cpu (w ∷ m) c ≡ digit w c
unfolding cpu
cpu_first w m c h =
    let e : c / 64 ≡ 0 = omega arith in let f : c % 64 ≡ c = omega arith in rw (e, f) refl

cpu_next : (w : ℕ) (m : Mask) (c : ℕ) → cpu (w ∷ m) (64 + c) ≡ cpu m c
unfolding cpu
cpu_next w m c =
    let e : (64 + c) / 64 ≡ suc (c / 64) = omega arith in
    let f : (64 + c) % 64 ≡ c % 64 = omega arith in rw (e, f) refl

pub cpu_none : (c : ℕ) → cpu [] c ≡ 0
unfolding cpu
cpu_none c = digit-zero (c % 64)

pub cpu_bound : (m : Mask) (c : ℕ) → cpu m c < 2
unfolding cpu
cpu_bound m c = digit_bound (get_or m (c / 64) 0) (c % 64)

abbrev pub Meet : Mask → Mask → Type 0
Meet a b = (c : ℕ) × (cpu a c ≡ 1) × (cpu b c ≡ 1)

meet : (a b : Mask) → IsMask b → intersects a b ≡ true → Meet a b
unfolding intersects
meet [] b h e = absurd (ground arith)
meet (v ∷ a) [] h e = absurd (ground arith)
meet (v ∷ a) (w ∷ b) (p, h) e = elim (Bool-cases (bit_and v w == 0)) [
  | inl q ↦
      let (c, x, y) = meet a b h (rw q at e) in
      (64 + c, rw (cpu_next v a c) x, rw (cpu_next w b c) y)
  | inr q ↦
      let (k, l, d) = some_digit 64 (bit_and v w) (bit_and_bound 64 v w p) (ground arith) in
      (
        k,
        ground (arith, cpu_first v a k l, digit-bit_and v w k, digit_bound v k, digit_bound w k),
        ground (arith, cpu_first w b k l, digit-bit_and v w k, digit_bound v k, digit_bound w k),
      )
]

met : (a b : Mask) (c : ℕ) → cpu a c ≡ 1 → cpu b c ≡ 1 → intersects a b ≡ true
unfolding intersects
met [] b c x y = absurd (omega (arith, cpu_none c))
met (v ∷ a) [] c x y = absurd (omega (arith, cpu_none c))
met (v ∷ a) (w ∷ b) c x y = elim (Bool-cases (ltb c 64)) [
  | inl e ↦
      let both : digit (bit_and v w) c ≡ 1 = omega (
        arith,
        digit-bit_and v w c,
        cpu_first v a c (ground arith),
        cpu_first w b c (ground arith),
      ) in
      rw (digit-some (bit_and v w) c both) refl
  | inr e ↦
      let split : 64 + (c - 64) ≡ c = ground arith in
      rw
        (met a b (c - 64) (sym (cpu_next v a (c - 64)) ∙ ap (cpu (v ∷ a)) split ∙ x)
          (sym (cpu_next w b (c - 64)) ∙ ap (cpu (w ∷ b)) split ∙ y))
        (ground arith)
]

-- Two masks intersect exactly when there is a CPU in both.
pub intersects_iff : (a b : Mask) → IsMask b → (intersects a b ≡ true) ↔ Meet a b
intersects_iff a b h = (meet a b h, λ (c, x, y). met a b c x y)
