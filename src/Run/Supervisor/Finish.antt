-- ===== src/Run/Supervisor/Finish.antt =====
-- What the supervisor leaves on the host, and what it returns.
use vkage.Base.{
  ◌≡◌, Bool, true, false, not, ◌&&◌, List, [], ◌∷◌, Option, none, arith, Bool-cases, inl, inr,
  if◌then◌else◌,
}
use vkage.Vdpa.{VdpaHost, remove}
use vkage.Vdpa.Laws.{VdpaLaws, remove_off_bus, destroy_off_bus}
use vkage.Run.Supervisor.{
  Supervisor, attach_round, cleanup, last_rounds, drained, finish, guest_exited,
}

module _ (h : VdpaHost) (laws : VdpaLaws h) (deletes : (w : h.World) → (h.dev_del w).0 ≡ none) where
  remove_nil : (gone : Bool) (w : h.World) → (remove h gone w).0 ≡ none
  unfolding remove
  remove_nil gone w = ground (arith, deletes (h.lower_timeout w), deletes w)

  cleanup_off_bus : (w : h.World) → h.attached (cleanup h w) ≡ false
  unfolding cleanup
  cleanup_off_bus w =
      destroy_off_bus h laws (remove h true w).1 (remove_off_bus h laws true w (remove_nil true w))

  -- Where `vdpa dev del` works, a device that is on the bus after the supervisor has ended is not a
  -- wlan device, the supervisor was not stopping, the attacher had found the device live, and the
  -- supervisor returns the launcher's exit as an error.
  pub finish-attached :
      (is_wlan late : Bool) (rounds : List (h.World → h.World)) (s : Supervisor h.World)
      (e : Option h.Fault)
      → h.attached (finish h is_wlan late rounds s e).1 ≡ true
      → (is_wlan ≡ false)
        × (s.stopping ≡ false)
        × (late ≡ false)
        × ((drained h rounds s).attacher.live ≡ true)
        × ((finish h is_wlan late rounds s e).0 ≡ guest_exited e)
  unfolding finish cleanup
  finish-attached is_wlan late rounds s e on =
      ground (arith, cleanup_off_bus (drained h rounds s).world)

-- An attacher that has not found the device live before the launcher is gone never does.
never_live_round :
    (h : VdpaHost) (s : Supervisor h.World)
    → s.launcher_gone ≡ true
    → s.attacher.live ≡ false
    → ((attach_round h s).launcher_gone ≡ true) × ((attach_round h s).attacher.live ≡ false)
unfolding attach_round
never_live_round h s g l = ground arith

never_live_rounds :
    (h : VdpaHost) (rounds : List (h.World → h.World)) (s : Supervisor h.World)
    → s.launcher_gone ≡ true
    → s.attacher.live ≡ false
    → (last_rounds h rounds s).attacher.live ≡ false
unfolding last_rounds
never_live_rounds h [] s g l = l
never_live_rounds h (f ∷ fs) s g l =
    let (g', l') = never_live_round h (record s { world = f s.world }) g l in
    never_live_rounds h fs (attach_round h (record s { world = f s.world })) g' l'

never_live_drained :
    (h : VdpaHost) (rounds : List (h.World → h.World)) (s : Supervisor h.World)
    → s.launcher_gone ≡ true
    → s.attacher.live ≡ false
    → (drained h rounds s).attacher.live ≡ false
unfolding drained
never_live_drained h rounds s g l =
    never_live_rounds h rounds
      (record s {
        world =
            if not (h.attached s.world) && h.exists s.world
            then h.lower_timeout s.world
            else s.world;
      })
      g l

-- A device that no live guest had on the bus when the launcher ended is cleaned up: where `vdpa dev
-- del` works it is off the bus when the supervisor has ended, even if the attacher adds it after the
-- launcher's end.
pub finish_not_live :
    (h : VdpaHost)
    → VdpaLaws h
    → ((w : h.World) → (h.dev_del w).0 ≡ none)
    → (is_wlan late : Bool) (rounds : List (h.World → h.World)) (s : Supervisor h.World)
      (e : Option h.Fault)
    → s.launcher_gone ≡ true
    → s.attacher.live ≡ false
    → h.attached (finish h is_wlan late rounds s e).1 ≡ false
finish_not_live h laws deletes is_wlan late rounds s e g l =
    elim (Bool-cases (h.attached (finish h is_wlan late rounds s e).1)) [
      | inr off ↦ off
      | inl on ↦
          let live = (finish-attached h laws deletes is_wlan late rounds s e on).3 in
          ground (arith, never_live_drained h rounds s g l, live)
    ]
