-- ===== src/Vdpa/Keeps.antt =====
-- What taking a device off the vDPA bus and destroying it leave as they find it: whatever the command,
-- the ioctl, the timeout and a sleep leave so.
use vkage.Base.{ℕ, zero, suc, inl, inr, Bool, true, false, ◌||◌, Option, none, some, Bool-cases}
use vkage.Vdpa.{
  VdpaHost, Errno, busy, other, Outcome, of_fault, remove, destroy_round, destroy_loop,
  destroy_opened, destroy,
}

module _ (h : VdpaHost) (P : h.World → Type 0) where
  of_fault-Keeps : (r : Option h.Fault × h.World) → P r.1 → P (of_fault h r).1
  unfolding of_fault
  of_fault-Keeps (none, w) p = p
  of_fault-Keeps (some e, w) p = p

  pub remove-Keeps :
      ((w : h.World) → P w → P (h.dev_del w).1)
      → ((w : h.World) → P w → P (h.lower_timeout w))
      → (w : h.World) → P w
      → P (remove h true w).1
  unfolding remove
  remove-Keeps del lower w p = elim (Bool-cases (h.attached w)) [
    | inl on ↦ rw on (of_fault-Keeps (h.dev_del (h.lower_timeout w)) (del _ (lower w p)))
    | inr off ↦ rw off p
  ]

  module _ (ioctl : (w : h.World) → P w → P (h.destroy_ioctl w).1)
      (pause : (w : h.World) → P w → P (h.pause w)) where
    destroy_round-Keeps :
        (last : Bool) (again : h.World → Outcome h) (r : Option (Errno h.Fault) × h.World)
        → ((w : h.World) → P w → P (again w).1)
        → P r.1
        → P (destroy_round h last again r).1
    unfolding destroy_round
    destroy_round-Keeps last again (none, w) k p = p
    destroy_round-Keeps last again (some (other e), w) k p = p
    destroy_round-Keeps last again (some busy, w) k p = elim (Bool-cases (last || h.attached w)) [
      | inl stop ↦ rw stop p
      | inr go ↦ rw go (k (h.pause w) (pause w p))
    ]

    destroy_loop-Keeps : (n : ℕ) (w : h.World) → P w → P (destroy_loop h n w).1
    unfolding destroy_loop
    destroy_loop-Keeps zero w p =
        destroy_round-Keeps true (λ v. (none, v)) (h.destroy_ioctl w) (λ v q. q) (ioctl w p)
    destroy_loop-Keeps (suc n) w p =
        destroy_round-Keeps false (destroy_loop h n) (h.destroy_ioctl w) (destroy_loop-Keeps n)
          (ioctl w p)

    destroy_opened-Keeps : (o : Option h.Fault) (w : h.World) → P w → P (destroy_opened h o w).1
    unfolding destroy_opened
    destroy_opened-Keeps none w p = destroy_loop-Keeps 100 w p
    destroy_opened-Keeps (some e) w p = p

    pub destroy-Keeps : (w : h.World) → P w → P (destroy h w).1
    unfolding destroy
    destroy-Keeps w p = elim (Bool-cases (h.exists w)) [
      | inl there ↦ rw there (destroy_opened-Keeps (h.open_control w) w p)
      | inr gone ↦ rw gone p
    ]
