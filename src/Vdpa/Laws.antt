-- ===== src/Vdpa/Laws.antt =====
-- What the commands of the vDPA bus are documented to do, and what removing and destroying a device
-- then achieve.
use vkage.Base.{ℕ, zero, suc, ◌≡◌, Bool, false, none, arith}
use vkage.Vdpa.{VdpaHost, remove, destroy_loop, destroy_opened, destroy}

-- A `vdpa dev del` that succeeds takes the device off the bus and changes nothing else; the ioctl
-- that succeeds destroys the device; neither it, nor a sleep, nor the timeout puts it on the bus.
pub record VdpaLaws (h : VdpaHost) : Type 0 where
  pub del_removes : (w : h.World) → (h.dev_del w).0 ≡ none → h.attached (h.dev_del w).1 ≡ false
  pub ioctl_destroys :
      (w : h.World) → (h.destroy_ioctl w).0 ≡ none → h.exists (h.destroy_ioctl w).1 ≡ false
  pub ioctl_off_bus :
      (w : h.World) → h.attached w ≡ false → h.attached (h.destroy_ioctl w).1 ≡ false
  pub pause_off_bus : (w : h.World) → h.attached w ≡ false → h.attached (h.pause w) ≡ false

module _ (h : VdpaHost) (laws : VdpaLaws h) where
  -- A removal that reports no error leaves the device off the bus.
  pub remove_off_bus :
      (gone : Bool) (w : h.World)
      → (remove h gone w).0 ≡ none
      → h.attached (remove h gone w).1 ≡ false
  unfolding remove
  remove_off_bus gone w ok =
      ground (arith, laws.del_removes (h.lower_timeout w), laws.del_removes w)

  destroy_loop_off :
      (n : ℕ) (w : h.World)
      → h.attached w ≡ false
      → (destroy_loop h n w).0 ≡ none
      → (h.exists (destroy_loop h n w).1 ≡ false) × (h.attached (destroy_loop h n w).1 ≡ false)
  unfolding destroy_loop
  destroy_loop_off zero w off ok = ground (arith, laws.ioctl_destroys w, laws.ioctl_off_bus w)
  destroy_loop_off (suc n) w off ok = ground (
    arith,
    laws.ioctl_destroys w,
    laws.ioctl_off_bus w,
    laws.pause_off_bus (h.destroy_ioctl w).1,
    destroy_loop_off n (h.pause (h.destroy_ioctl w).1),
  )

  -- Destroying a device that is off the bus, if it reports no error, leaves neither.
  pub destroy_gone :
      (w : h.World)
      → h.attached w ≡ false
      → (destroy h w).0 ≡ none
      → (h.exists (destroy h w).1 ≡ false) × (h.attached (destroy h w).1 ≡ false)
  unfolding destroy destroy_opened
  destroy_gone w off ok = ground (arith, destroy_loop_off 100 w off)

  destroy_loop_off_bus :
      (n : ℕ) (w : h.World) → h.attached w ≡ false → h.attached (destroy_loop h n w).1 ≡ false
  unfolding destroy_loop
  destroy_loop_off_bus zero w off = ground (arith, laws.ioctl_off_bus w)
  destroy_loop_off_bus (suc n) w off = ground (
    arith,
    laws.ioctl_off_bus w,
    laws.pause_off_bus (h.destroy_ioctl w).1,
    destroy_loop_off_bus n (h.pause (h.destroy_ioctl w).1),
  )

  -- Nothing that `Destroy` does puts the device on the bus, also where it fails.
  pub destroy_off_bus : (w : h.World) → h.attached w ≡ false → h.attached (destroy h w).1 ≡ false
  unfolding destroy destroy_opened
  destroy_off_bus w off = ground (arith, destroy_loop_off_bus 100 w off)
