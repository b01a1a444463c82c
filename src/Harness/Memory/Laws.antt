-- ===== src/Harness/Memory/Laws.antt =====
-- The samples of a guest's memory keep the most that was in use.
use Prim.Native.Nat.{max}
use vkage.Base.{
  ℕ, ◌-◌, ◌≤◌, ◌≡◌, inl, inr, List, [], ◌∷◌, Bytes, codes, ◌==◌, All, arith, Bool-cases,
}
use vkage.Config.Sizes.{max_int64}
use vkage.Report.Memory.{keyed, parse_keyed}
use vkage.Harness.Memory.{GuestMemory, max64, used64, sampled, sample_guest}

-- The total and what is available, of a sample.
abbrev pub totals : Bytes → ℕ × ℕ
totals meminfo = (
  keyed (codes "MemTotal") (parse_keyed meminfo),
  keyed (codes "MemAvailable") (parse_keyed meminfo),
)

-- No more is available than there is, which fits an int64.
abbrev pub IsSample : Bytes → Type 0
IsSample meminfo = ((totals meminfo).1 ≤ (totals meminfo).0) × ((totals meminfo).0 ≤ max_int64)

unfoldable pub sample_all : List Bytes → GuestMemory → GuestMemory
sample_all [] m = m
sample_all (t ∷ ts) m = sample_all ts (sample_guest t m)

-- The most that is in use in samples, and in none before.
unfoldable pub most_used : List Bytes → ℕ
most_used [] = 0
most_used (t ∷ ts) = max ((totals t).0 - (totals t).1) (most_used ts)

max64_fits : (a b : ℕ) → a ≤ max_int64 → b ≤ max_int64 → max64 a b ≡ max a b
unfolding max64
max64_fits a b h k = ground arith

used64_fits : (t a : ℕ) → a ≤ t → t ≤ max_int64 → used64 t a ≡ t - a
used64_fits t a h k = omega arith

-- Without a total nothing is in use.
sampled_peak :
    (t a : ℕ) (m : GuestMemory)
    → a ≤ t
    → t ≤ max_int64
    → m.guest_peak_used ≤ max_int64
    → (sampled t a m).guest_peak_used ≡ max m.guest_peak_used (t - a)
unfolding sampled
sampled_peak t a m h k l = elim (Bool-cases (t == 0)) [
  | inl e ↦ rw e (ground arith)
  | inr e ↦ rw (e, used64_fits t a h k) (max64_fits m.guest_peak_used (t - a) l (omega arith))
]

-- After any samples, the guest's peak is the most that was in use in them, or what it was before if
-- that is more.
pub sample_all_peak :
    (ts : List Bytes) (m : GuestMemory)
    → All IsSample ts
    → m.guest_peak_used ≤ max_int64
    → (sample_all ts m).guest_peak_used ≡ max m.guest_peak_used (most_used ts)
unfolding sample_all most_used sample_guest
sample_all_peak [] m h l = omega arith
sample_all_peak (t ∷ ts) m ((p, q), h) l =
    let e = sampled_peak (totals t).0 (totals t).1 m p q l in
    omega (arith, e, sample_all_peak ts (sample_guest t m) h (omega (arith, e)))
