-- ===== src/Harness/Masks/Groups.antt =====
-- What `ParseMask` reads of the groups of a mask, and that it reads the groups that are printed.
use Prim.Native.Nat.{max, bit_and}
use vkage.Base.{
  ℕ, zero, suc, ◌+◌, ◌-◌, ◌*◌, ◌/◌, ◌%◌, ◌^◌, ◌≤◌, ◌<◌, ◌≡◌, refl, sym, ◌∙◌, ap, inl, inr, ◌&&◌,
  List, [], ◌∷◌, map, Option, some, Bytes, leb, ltb, ◌==◌, if◌then◌else◌, arith, Bool-cases, All,
  length,
}
use vkage.Harness.Masks.{
  Mask, set_bit, set_digits, set_group, parse_groups, hex_value, scan_hex, word32, parse_hex,
  hex_digit, hex_onto, hex8, cpu,
}
use vkage.Harness.Masks.Bits.{digit, digit_bound, has_digit, digit-zero}
use vkage.Harness.Masks.Laws.{IsMask, cpu-set_bit, cpu_none, cpu_bound, set_bit-IsMask}

at_bit : (v first bit c : ℕ) → c ≡ first + bit → digit v (c - first) ≡ digit v bit
at_bit v first bit c h = ap (digit v) (omega arith)

at_place : (v i c : ℕ) → c / 32 ≡ i → digit v (c - 32 * i) ≡ digit v (c % 32)
at_place v i c h = ap (digit v) (omega arith)

cpu-set_digits :
    (n bit first v : ℕ) (m : Mask) (c : ℕ)
    → cpu (set_digits n bit first v m) c ≡ (
        if leb (first + bit) c && ltb c (first + bit + n) && digit v (c - first) == 1
        then 1
        else cpu m c)
unfolding set_digits
cpu-set_digits zero bit first v m c = ground arith
cpu-set_digits (suc n) bit first v m c = elim (Bool-cases (digit v bit == 0)) [
  | inl e ↦
      rw (has_digit v bit, e, cpu-set_digits n (suc bit) first v m c)
        (ground (arith, at_bit v first bit c))
  | inr e ↦
      rw
        (
          has_digit v bit,
          e,
          cpu-set_digits n (suc bit) first v (set_bit m (first + bit)) c,
          cpu-set_bit m (first + bit) c,
        )
        (ground (arith, at_bit v first bit c, digit_bound v bit))
]

-- A group's digits become those of its 32 CPUs.
group_cpu :
    (i v : ℕ) (m : Mask) (c : ℕ)
    → cpu (set_digits 32 0 (32 * i) v m) c
      ≡ (if c / 32 == i then max (digit v (c % 32)) (cpu m c) else cpu m c)
group_cpu i v m c =
    rw (cpu-set_digits 32 0 (32 * i) v m c)
      (ground (arith, at_place v i c, digit_bound v (c % 32), cpu_bound m c))

pub set_digits-IsMask :
    (n bit first v : ℕ) (m : Mask) → IsMask m → IsMask (set_digits n bit first v m)
unfolding set_digits
set_digits-IsMask zero bit first v m h = h
set_digits-IsMask (suc n) bit first v m h = elim (Bool-cases (bit_and v (2 ^ bit) == 0)) [
  | inl e ↦ rw e (set_digits-IsMask n (suc bit) first v m h)
  | inr e ↦ rw e (
      set_digits-IsMask n (suc bit) first v (set_bit m (first + bit))
        (set_bit-IsMask m (first + bit) h))
]

-- The group at a place, the last at zero.
unfoldable pub group_at : List ℕ → ℕ → ℕ
group_at [] i = 0
group_at (v ∷ vs) i = if i == length vs then v else group_at vs i

abbrev pub Printed : List ℕ → Type 0
Printed vs = All (λ v. v < 2 ^ 32) vs

-- A mask whose CPUs are the digits of the groups.
abbrev pub Reads : List ℕ → Mask → Type 0
Reads vs m = IsMask m × ((c : ℕ) → cpu m c ≡ digit (group_at vs (c / 32)) (c % 32))

-- A hexadecimal number read behind what those before stand for.
scan_from : Bytes → ℕ → Option ℕ
unfolding scan_hex hex_value
scan_from [] n = some n
scan_from (b ∷ s) n = scan_hex s (hex_value b) n

scan_hex-some : (s : Bytes) (d n : ℕ) → scan_hex s (some d) n ≡ scan_from s (n * 16 + d)
unfolding scan_from scan_hex
scan_hex-some [] d n = refl
scan_hex-some (b ∷ s) d n = refl

hex_value-hex_digit : (d : ℕ) → d < 16 → hex_value (hex_digit d) ≡ some d
unfolding hex_value hex_digit
hex_value-hex_digit d h = ground arith

scan_from-hex_onto :
    (k n : ℕ) (out : Bytes) → n < 16 ^ k → scan_from (hex_onto k n out) 0 ≡ scan_from out n
unfolding hex_onto scan_from
scan_from-hex_onto zero n out h = let e : n ≡ 0 = omega arith in rw e refl
scan_from-hex_onto (suc k) n out h =
    scan_from-hex_onto k (n / 16) (hex_digit (n % 16) ∷ out) (omega arith)
    ∙ rw (hex_value-hex_digit (n % 16) (omega arith), scan_hex-some out (n % 16) (n / 16))
        (ap (scan_from out) (omega arith))

pub parse_hex-hex8 : (n : ℕ) → n < 2 ^ 32 → parse_hex (hex8 n) ≡ some n
unfolding parse_hex hex8 scan_from word32
parse_hex-hex8 n h = ap word32 (scan_from-hex_onto 8 n [] h) ∙ ground arith

length-hex8 : (vs : List ℕ) → length (map hex8 vs) ≡ length vs
length-hex8 [] = refl
length-hex8 (v ∷ vs) = omega (arith, length-hex8 vs)

-- No group is at the place of the one that follows.
pub group_at-length : (vs : List ℕ) (i : ℕ) → length vs ≤ i → group_at vs i ≡ 0
unfolding group_at
group_at-length [] i h = refl
group_at-length (v ∷ vs) i h = ground (arith, group_at-length vs i)

read_group :
    (v : ℕ) (vs : List ℕ) (m : Mask)
    → Reads vs m
    → Reads (v ∷ vs) (set_digits 32 0 (32 * length vs) v m)
unfolding group_at
read_group v vs m (h, cpus) = (
  set_digits-IsMask 32 0 (32 * length vs) v m h,
  λ c. ground (
    arith,
    group_cpu (length vs) v m c,
    cpus c,
    group_at-length vs (c / 32),
    digit-zero (c % 32),
  ),
)

pub parse_groups-hex8 :
    (vs : List ℕ) → Printed vs → (m : Mask) × (parse_groups (map hex8 vs) ≡ some m) × Reads vs m
unfolding parse_groups set_group group_at
parse_groups-hex8 [] h = ([], refl, (tt, λ c. cpu_none c ∙ sym (digit-zero (c % 32))))
parse_groups-hex8 (v ∷ vs) (p, h) =
    let (m, e, r) = parse_groups-hex8 vs h in
    (
      set_digits 32 0 (32 * length vs) v m,
      rw (parse_hex-hex8 v p, e, length-hex8 vs) refl,
      read_group v vs m r,
    )
