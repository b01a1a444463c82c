-- ===== src/Harness/Irqs/Placed.antt =====
-- What `PlaceIRQs` writes, whatever the files hold.
use vkage.Base.{
  ℕ, ◌≡◌, refl, ◌∙◌, inl, inr, List, [], ◌∷◌, ◌++◌, Option, none, some, Bytes, codes, ◌==◌,
  if◌then◌else◌, arith, Bool-cases,
}
use vkage.Harness.Masks.{Mask, parse_cpu_list, intersects, cpu, parse_mask, format_mask}
use vkage.Harness.Masks.Laws.{IsMask, set_bit-IsMask, intersects_iff, cpu-set_bit, cpu_none}
use vkage.Harness.Masks.Format.{parse_mask-format_mask}
use vkage.Harness.Masks.Words.{parse_cpu_list-IsMask, parse_mask-IsMask}
use vkage.Harness.Irqs.{
  IrqHost, placed, online_path, Outcome, wrote, place_one, place_each, place_online, place_irqs,
}

-- What a mask that is written has: the CPU and no other, or an online CPU.
abbrev pub Reaches : Option ℕ → Mask → Mask → Type 0
Reaches (some c) online m = (d : ℕ) → cpu m d ≡ (if d == c then 1 else 0)
Reaches none online m = (d : ℕ) × (cpu m d ≡ 1) × (cpu online d ≡ 1)

-- A text that parses to such a mask.
abbrev pub Places : Option ℕ → Mask → Bytes → Type 0
Places c online text = (m : Mask) × (parse_mask text ≡ some m) × Reaches c online m

abbrev pub HasCpu : Mask → Type 0
HasCpu m = (d : ℕ) × (cpu m d ≡ 1)

placed-IsMask :
    (c : Option ℕ) (online m : Mask) → IsMask online → IsMask m → IsMask (placed c online m)
unfolding placed
placed-IsMask (some c) online m h k = set_bit-IsMask [] c tt
placed-IsMask none online m h k = ground arith

placed-Reaches :
    (c : Option ℕ) (online m : Mask)
    → IsMask online
    → HasCpu online
    → Reaches c online (placed c online m)
unfolding placed
placed-Reaches (some c) online m h k = λ d. cpu-set_bit [] c d ∙ rw (cpu_none d) refl
placed-Reaches none online m h (d, k) = elim (Bool-cases (intersects m online)) [
  | inl e ↦ rw e ((intersects_iff m online h).0 e)
  | inr e ↦ rw e (d, k, k)
]

-- The same CPUs are reached by a mask that has the same.
Reaches-same :
    (c : Option ℕ) (online m n : Mask)
    → ((d : ℕ) → cpu n d ≡ cpu m d)
    → Reaches c online m
    → Reaches c online n
Reaches-same (some c) online m n same h = λ d. same d ∙ h d
Reaches-same none online m n same (d, x, y) = (d, same d ∙ x, y)

format_placed-Places :
    (c : Option ℕ) (online m : Mask)
    → IsMask online
    → IsMask m
    → HasCpu online
    → Places c online (format_mask (placed c online m))
format_placed-Places c online m h k o =
    let (n, e, i, same) =
      parse_mask-format_mask (placed c online m) (placed-IsMask c online m h k) in
    (n, e, Reaches-same c online (placed c online m) n same (placed-Reaches c online m h o))

module _ (h : IrqHost) (P : h.World → Type 0) where
  -- A write of a text that places keeps P.
  abbrev pub Kept : Option ℕ → Mask → Type 0
  Kept c online =
      (f text : Bytes) (w : h.World) → Places c online text → P w → P (h.write f text w).1

  wrote-Kept :
      (f : Bytes) (r : Option h.Fault × h.World) (next : h.World → Outcome h)
      → ((w : h.World) → P w → P (next w).1)
      → P r.1
      → P (wrote h f r next).1
  unfolding wrote
  wrote-Kept f (some e, w) next k p = p
  wrote-Kept f (none, w) next k p = k w p

  module _ (c : Option ℕ) (online : Mask) (fits : IsMask online) (some_cpu : HasCpu online)
      (kept : Kept c online) where
    place_one-Kept :
        (f : Bytes) (o : Option Mask) (next : h.World → Outcome h) (w : h.World)
        → ((m : Mask) → o ≡ some m → IsMask m)
        → ((w : h.World) → P w → P (next w).1)
        → P w
        → P (place_one h c online f o next w).1
    unfolding place_one
    place_one-Kept f none next w i k p = p
    place_one-Kept f (some m) next w i k p =
        wrote-Kept f (h.write f (format_mask (placed c online m)) w) next k (
          kept f (format_mask (placed c online m)) w
            (format_placed-Places c online m fits (i m refl) some_cpu) p)

    pub place_each-Kept : (fs : List Bytes) (w : h.World) → P w → P (place_each h c online fs w).1
    unfolding place_each
    place_each-Kept [] w p = p
    place_each-Kept (f ∷ fs) w p =
        place_one-Kept f (parse_mask (h.read f w)) (place_each h c online fs) w
          (parse_mask-IsMask (h.read f w)) (place_each-Kept fs) p

  -- Where the list of the online CPUs is parsed and has a CPU, PlaceIRQs keeps whatever every write
  -- keeps whose text parses to a mask of the wanted CPU alone or, where no CPU is wanted, to a mask
  -- with an online CPU. So, where none is wanted, no queue is written a mask without an online CPU,
  -- whatever the files held and whichever write fails.
  pub place_irqs-Kept :
      (name : Bytes) (c : Option ℕ) (online : Mask) (w : h.World)
      → parse_cpu_list (h.read online_path w) ≡ some online
      → HasCpu online
      → Kept c online
      → P w
      → P (place_irqs h name c w).1
  unfolding place_irqs place_online
  place_irqs-Kept name c online w e o kept p = rw e (
      place_each-Kept c online (parse_cpu_list-IsMask (h.read online_path w) online e) o kept
        (h.glob (codes "/sys/class/vduse/" ++ (name ++ codes "/vq*/irq_cb_affinity")) w) w p)
