-- ===== src/Harness/Masks/Format.antt =====
-- What is formatted is parsed to the same CPUs.
use vkage.Base.{
  ℕ, zero, suc, ◌+◌, ◌-◌, ◌*◌, ◌/◌, ◌%◌, ◌^◌, ◌<◌, ◌≡◌, refl, sym, ◌∙◌, ap, inl, inr, true, List,
  [], ◌∷◌, ◌++◌, map, Option, none, some, Bytes, codes, ◌==◌, if◌then◌else◌, arith, Bool-cases,
  All-append, length-append, str_eq, str_eq_iff, get_or,
}
use Prim.Native.Nat.{bit_and}
use vkage.Harness.Masks.{
  Mask, parse_hex, hex8, groups_of, drop_zeros, join_groups, formatted, format_mask, parse_mask,
  cpu,
}
use vkage.Harness.Masks.Bits.{digit, digit-zero, digit_low, digit-shift, bit_and_bound}
use vkage.Harness.Masks.Laws.{IsMask, cpu_none}
use vkage.Harness.Masks.Text.{split_groups, join-IsText, trim_space-IsText}
use vkage.Harness.Masks.Groups.{
  group_at, group_at-length, Printed, Reads, parse_hex-hex8, parse_groups-hex8,
}

-- The words of a mask as halves, the last first.
halves : Mask → List ℕ
halves [] = []
halves (w ∷ ws) = halves ws ++ w / 2 ^ 32 ∷ bit_and w 0xffffffff ∷ []

map-append : (vs ws : List ℕ) → map hex8 (vs ++ ws) ≡ map hex8 vs ++ map hex8 ws
map-append [] ws = refl
map-append (v ∷ vs) ws = ap (◌∷◌ (hex8 v)) (map-append vs ws)

groups_of-halves : (m : Mask) → groups_of m ≡ map hex8 (halves m)
unfolding groups_of halves
groups_of-halves [] = refl
groups_of-halves (w ∷ m) =
    rw (groups_of-halves m, map-append (halves m) (w / 2 ^ 32 ∷ bit_and w 0xffffffff ∷ [])) refl

halves-Printed : (m : Mask) → IsMask m → Printed (halves m)
unfolding halves
halves-Printed [] h = tt
halves-Printed (w ∷ m) (p, h) =
    All-append (λ v. v < 2 ^ 32) (halves m) (w / 2 ^ 32 ∷ bit_and w 0xffffffff ∷ [])
      (halves-Printed m h) (omega arith, (bit_and_bound 32 w 0xffffffff (omega arith), tt))

group_at_pair :
    (vs : List ℕ) (x y i : ℕ)
    → group_at (vs ++ x ∷ y ∷ []) i
      ≡ (if i == 0 then y else if i == 1 then x else group_at vs (i - 2))
unfolding group_at
group_at_pair [] x y i = ground arith
group_at_pair (v ∷ vs) x y i = ground (arith, length-append vs (x ∷ y ∷ []), group_at_pair vs x y i)

-- The place of a half, in the words.
half_at :
    (m : Mask) (i k : ℕ)
    → IsMask m
    → k < 32
    → digit (group_at (halves m) i) k ≡ digit (get_or m (i / 2) 0) (i % 2 * 32 + k)
unfolding halves group_at
half_at [] i k h l = digit-zero k ∙ sym (digit-zero (i % 2 * 32 + k))
half_at (w ∷ m) zero k h l =
    rw (group_at_pair (halves m) (w / 2 ^ 32) (bit_and w 0xffffffff) 0)
      (digit_low w k l ∙ ap (digit w) (omega arith))
half_at (w ∷ m) (suc zero) k h l =
    rw (group_at_pair (halves m) (w / 2 ^ 32) (bit_and w 0xffffffff) 1) (digit-shift 32 w k)
half_at (w ∷ m) (suc (suc i)) k (p, h) l =
    let e : suc (suc i) / 2 ≡ suc (i / 2) = omega arith in
    let f : suc (suc i) % 2 ≡ i % 2 = omega arith in
    rw (group_at_pair (halves m) (w / 2 ^ 32) (bit_and w 0xffffffff) (suc (suc i)), e, f)
      (ground (arith, half_at m i k h l))

halves-cpu : (m : Mask) (c : ℕ) → IsMask m → digit (group_at (halves m) (c / 32)) (c % 32) ≡ cpu m c
unfolding cpu
halves-cpu m c h =
    let e : c / 32 / 2 ≡ c / 64 = omega arith in
    let f : c / 32 % 2 * 32 + c % 32 ≡ c % 64 = omega arith in
    half_at m (c / 32) (c % 32) h (omega arith) ∙ rw (e, f) refl

-- Groups that are printed, without the zeros that they begin with.
abbrev Trimmed : List ℕ → List Bytes → Type 0
Trimmed vs gs =
    (us : List ℕ) × (gs ≡ map hex8 us) × Printed us × ((i : ℕ) → group_at us i ≡ group_at vs i)

number : ℕ → Option ℕ → ℕ
number d none = d
number d (some n) = n

zero_group : (v : ℕ) → v < 2 ^ 32 → str_eq (hex8 v) (codes "00000000") ≡ true → v ≡ 0
unfolding parse_hex number
zero_group v h e =
    ap (number v)
      (sym (parse_hex-hex8 v h) ∙ ap parse_hex ((str_eq_iff (hex8 v) (codes "00000000")).0 e))

leading_zero : (v : ℕ) (us : List ℕ) (i : ℕ) → v ≡ 0 → group_at us i ≡ group_at (v ∷ us) i
unfolding group_at
leading_zero v us i h = ground (arith, group_at-length us i)

trimmed : (vs : List ℕ) → Printed vs → Trimmed vs (drop_zeros (map hex8 vs))
unfolding drop_zeros
trimmed [] h = ([], refl, h, λ i. refl)
trimmed (v ∷ []) h = (v ∷ [], refl, h, λ i. refl)
trimmed (v ∷ u ∷ vs) (p, h) = elim (Bool-cases (str_eq (hex8 v) (codes "00000000"))) [
  | inl e ↦
      let (us, f, k, same) = trimmed (u ∷ vs) h in
      rw e (us, f, k, λ i. same i ∙ leading_zero v (u ∷ vs) i (zero_group v p e))
  | inr e ↦ rw e (v ∷ u ∷ vs, refl, (p, h), λ i. refl)
]

-- Groups that are printed, one at least, are parsed to the mask that they stand for.
parse-Printed :
    (us : List ℕ)
    → Printed us
    → (m : Mask) × (parse_mask (formatted (map hex8 us)) ≡ some m) × Reads us m
unfolding parse_mask formatted group_at
parse-Printed [] h = ([], refl, (tt, λ c. cpu_none c ∙ sym (digit-zero (c % 32))))
parse-Printed (u ∷ us) h =
    let (m, e, r) = parse_groups-hex8 (u ∷ us) h in
    (
      m,
      rw
          (
            trim_space-IsText (join_groups (map hex8 (u ∷ us))) (join-IsText (u ∷ us)),
            split_groups u us,
          )
          e,
      r,
    )

-- Formatting a mask of 64-bit words, and parsing what was formatted, gives a mask of such words
-- that has the same CPUs.
pub parse_mask-format_mask :
    (m : Mask)
    → IsMask m
    → (n : Mask) × (parse_mask (format_mask m) ≡ some n) × IsMask n × ((c : ℕ) → cpu n c ≡ cpu m c)
unfolding format_mask
parse_mask-format_mask m h =
    let (us, e, k, same) = trimmed (halves m) (halves-Printed m h) in
    let (n, f, r) = parse-Printed us k in
    (n, rw (groups_of-halves m, e) f, r.0, λ c. r.1 c ∙ rw (same (c / 32)) (halves-cpu m c h))
