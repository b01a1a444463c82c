-- ===== src/Vdpa.antt =====
-- tools/internal/vdpa/vdpa.go, for one device: putting it on and taking it off the vDPA bus. The
-- host's files, commands and the VDUSE ioctl are an interface; `none` is a nil error.
pub mod Laws
pub mod Keeps
pub mod Eventually
mod Tests
use vkage.Base.{
  ℕ, zero, suc, Bool, true, false, ◌||◌, Option, none, some, Bytes, codes, if◌then◌else◌, str_eq,
  [],
}

-- What the destroying ioctl can fail with.
pub data Errno (Fault : Type 0) : Type 0 where
  busy : Errno Fault
  other : Fault → Errno Fault

-- The host as the tools see it, for the device's name. The driver's link is empty where there is
-- none. `pause` is what happens in a sleep of 10 ms.
pub record VdpaHost : Type 1 where
  pub World : Type 0
  pub Fault : Type 0
  pub exists : World → Bool
  pub attached : World → Bool
  pub driver : World → Bytes
  pub dev_add : World → Option Fault × World
  pub dev_del : World → Option Fault × World
  pub unbind : World → Option Fault × World
  pub bind : World → Option Fault × World
  pub lower_timeout : World → World
  pub open_control : World → Option Fault
  pub destroy_ioctl : World → Option (Errno Fault) × World
  pub pause : World → World

pub data VdpaError (Fault : Type 0) : Type 0 where
  fault : Fault → VdpaError Fault
  cannot_open_control : Fault → VdpaError Fault
  cannot_destroy : Errno Fault → VdpaError Fault

module _ (h : VdpaHost) where
  open h use {
    World, Fault, attached, driver, dev_add, dev_del, unbind, bind, lower_timeout, open_control,
    destroy_ioctl, pause,
  }

  abbrev pub Outcome : Type 0
  Outcome = Option (VdpaError Fault) × World

  pub of_fault : Option Fault × World → Outcome
  of_fault (none, w) = (none, w)
  of_fault (some e, w) = (some (fault e), w)

  unfoldable pub add : World → Outcome
  unfolding of_fault
  add w = of_fault (dev_add w)

  bind_next : Option Fault × World → Outcome
  unfolding of_fault
  bind_next (none, w) = of_fault (bind w)
  bind_next (some e, w) = (some (fault e), w)

  unfoldable pub bind_virtio : World → Outcome
  unfolding bind_next
  bind_virtio w =
      if str_eq (driver w) (codes "virtio_vdpa")
      then (none, w)
      else if str_eq (driver w) []
      then of_fault (bind w)
      else bind_next (unbind w)

  -- An error of the timeout's write is ignored.
  unfoldable pub remove : Bool → World → Outcome
  unfolding of_fault
  remove guest_gone w =
      if attached w
      then of_fault (dev_del (if guest_gone then lower_timeout w else w))
      else (none, w)

  -- What a round of `Destroy` does behind its ioctl; `again` is the next round, after the sleep.
  pub destroy_round : Bool → (World → Outcome) → Option (Errno Fault) × World → Outcome
  destroy_round last again (none, w) = (none, w)
  destroy_round last again (some (other e), w) = (some (cannot_destroy (other e)), w)
  destroy_round last again (some busy, w) =
      if last || attached w then (some (cannot_destroy busy), w) else again (pause w)

  -- The loop of `Destroy`, by the rounds that are left: at zero `n` is 100.
  pub destroy_loop : ℕ → World → Outcome
  unfolding destroy_round
  destroy_loop zero w = destroy_round true (λ w'. (none, w')) (destroy_ioctl w)
  destroy_loop (suc n) w = destroy_round false (destroy_loop n) (destroy_ioctl w)

  pub destroy_opened : Option Fault → World → Outcome
  unfolding destroy_loop
  destroy_opened none w = destroy_loop 100 w
  destroy_opened (some e) w = (some (cannot_open_control e), w)

  unfoldable pub destroy : World → Outcome
  unfolding destroy_opened
  destroy w = if h.exists w then destroy_opened (open_control w) w else (none, w)
