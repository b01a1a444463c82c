-- ===== src/Vdpa/Eventually.antt =====
-- `Destroy` outlasts a device that is busy for a while: its rounds as a relation on the host's states.
use vkage.Base.{ℕ, zero, suc, ◌≤◌, ◌≡◌, refl, true, false, none, some, arith}
use vkage.Vdpa.{
  VdpaHost, cannot_destroy, busy, destroy_round, destroy_loop, destroy_opened, destroy,
}

-- So many rounds in which the ioctl finds the device busy and off the bus, each with its sleep.
pub data Waits (h : VdpaHost) : ℕ → h.World → h.World → Type 0 where
  here : (w : h.World) → Waits h 0 w w
  round :
      (n : ℕ) (w v u : h.World)
      → h.destroy_ioctl w ≡ (some busy, v)
      → h.attached v ≡ false
      → Waits h n (h.pause v) u
      → Waits h (suc n) w u

module _ (h : VdpaHost) where
  loop_destroys :
      (m n : ℕ) (w u v : h.World)
      → Waits h n w u
      → n ≤ m
      → h.destroy_ioctl u ≡ (none, v)
      → destroy_loop h m w ≡ (none, v)
  unfolding destroy_loop destroy_round
  loop_destroys zero _ _ _ v (here w) l e = rw e refl
  loop_destroys (suc m) _ _ _ v (here w) l e = rw e refl
  loop_destroys zero _ _ _ v (round n w x u b off waits) l e = absurd (omega arith)
  loop_destroys (suc m) _ _ _ v (round n w x u b off waits) l e =
      rw (b, off) (loop_destroys m n (h.pause x) u v waits (omega arith) e)

  loop_gives_up :
      (m : ℕ) (w u : h.World)
      → Waits h (suc m) w u
      → (v : h.World) × (destroy_loop h m w ≡ (some (cannot_destroy busy), v))
  unfolding destroy_loop destroy_round
  loop_gives_up zero _ _ (round _ w x u b off waits) = (x, rw b refl)
  loop_gives_up (suc m) _ _ (round _ w x u b off waits) =
      rw (b, off) (loop_gives_up m (h.pause x) u waits)

  -- A device that is there is destroyed although the ioctl finds it busy in the first rounds, where
  -- the control device can be opened, the device is off the bus in each of these rounds, they are at
  -- most 100 and the ioctl then succeeds.
  pub destroy_eventually :
      (n : ℕ) (w u v : h.World)
      → h.exists w ≡ true
      → h.open_control w ≡ none
      → Waits h n w u
      → n ≤ 100
      → h.destroy_ioctl u ≡ (none, v)
      → destroy h w ≡ (none, v)
  unfolding destroy destroy_opened
  destroy_eventually n w u v there opens waits l e =
      rw (there, opens) (loop_destroys 100 n w u v waits l e)

  -- After 101 rounds that find it busy, `Destroy` reports so.
  pub destroy_gives_up :
      (w u : h.World)
      → h.exists w ≡ true
      → h.open_control w ≡ none
      → Waits h 101 w u
      → (v : h.World) × (destroy h w ≡ (some (cannot_destroy busy), v))
  unfolding destroy destroy_opened
  destroy_gives_up w u there opens waits = rw (there, opens) (loop_gives_up 100 w u waits)
