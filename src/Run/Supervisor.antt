-- ===== src/Run/Supervisor.antt =====
-- `supervise`, `attacher` and `cleanup` of tools/cmd/invirtio/run.go, from the launcher's start on.
-- The attacher's goroutine holds its lock for a whole round of its loop, and so do `stop` and
-- `isLive`: each is one event, and a list of events is an interleaving of the goroutines with the
-- guest and the host, which may change the world at any point.
pub mod Stop
pub mod Finish
mod Tests
use vkage.Base.{
  ℕ, suc, ◌+◌, Bool, true, false, not, ◌&&◌, ◌||◌, List, [], ◌∷◌, ◌++◌, Option, none, some, Bytes,
  codes, if◌then◌else◌, str_eq,
}
use vkage.Vdpa.{VdpaHost, VdpaError, Outcome, add, bind_virtio, remove, destroy}

-- `modules`.
unfoldable pub modules : Bytes → List Bytes
modules typ =
    let mods = codes "vfio-pci" ∷ codes "vduse" ∷ codes "vdpa" ∷ codes "virtio_vdpa" ∷ [] in
    if str_eq typ (codes "wlan") then mods ++ codes "virtio_wlan" ∷ [] else mods

-- `done` is set once the goroutine has ended.
pub record Attacher : Type 0 where
  pub stopped : Bool
  pub live : Bool
  pub done : Bool

-- The supervisor in its loop `wait`. `signalled` counts the SIGTERMs that it sent the launcher.
pub record Supervisor (World : Type 0) : Type 0 where
  pub attacher : Attacher
  pub launcher_gone : Bool
  pub stopping : Bool
  pub signalled : ℕ
  pub world : World

module _ (h : VdpaHost) where
  open h use {World, Fault, exists, attached, lower_timeout}

  is_nil : Option (VdpaError Fault) → Bool
  is_nil none = true
  is_nil (some _) = false

  -- `cleanup`: a removal that fails does not keep the device from being destroyed.
  unfoldable pub cleanup : World → World
  cleanup w = (destroy h (remove h true w).1).1

  -- A round of the attacher's loop, unless its deadline is past.
  unfoldable pub attach_round : Supervisor World → Supervisor World
  unfolding is_nil
  attach_round s =
      if s.attacher.done
      then s
      else if s.attacher.stopped
      then record s { attacher = record (s.attacher) { done = true } }
      else if attached s.world
      then (let (e, w) = bind_virtio h s.world in
          record s {
            attacher = record (s.attacher) { live = is_nil e && not s.launcher_gone; done = true };
            world = w;
          })
      else if exists s.world
      then record s { world = (add h s.world).1 }
      else s

  -- `stop`: the goroutine ends in the round that sees `stopped`, and `stop` waits for that.
  abbrev pub stop : Supervisor World → Supervisor World
  stop s = record s { attacher = record (s.attacher) { stopped = true; done = true } }

  -- What the loop waits for, and what goes on beside it. A signal that finds the launcher's exit
  -- waiting too is an event of its own.
  pub data Event : Type 0 where
    signal : Event
    signal_exited : Option Fault → Event
    exited : Option Fault → Event
    launcher_exits : Event
    attacher_round : Event
    attacher_deadline : Event
    environment : (World → World) → Event

  -- The first stop signal takes the device from the host while the guest still runs; each signal is
  -- passed on to the launcher.
  unfoldable pub on_signal : Supervisor World → Supervisor World
  on_signal s =
      let s' =
        if s.stopping
        then s
        else (let t = stop (record s { stopping = true }) in
            record t { world = (remove h t.launcher_gone t.world).1 }) in
      record s' { signalled = s'.signalled + 1 }

  -- The supervisor goes on, or has left the loop with the launcher's exit error.
  pub data Waiting : Type 0 where
    waits : Supervisor World → Waiting
    left : Supervisor World → Option Fault → Waiting

  unfoldable pub step : Supervisor World → Event → Waiting
  unfolding on_signal attach_round
  step s signal = waits (on_signal s)
  step s (signal_exited e) = left (record s { stopping = true }) e
  step s (exited e) = left s e
  step s launcher_exits = waits (record s { launcher_gone = true })
  step s attacher_round = waits (attach_round s)
  step s attacher_deadline = waits (record s { attacher = record (s.attacher) { done = true } })
  step s (environment f) = waits (record s { world = f s.world })

  wait_next : (Supervisor World → Waiting) → Waiting → Waiting
  wait_next rest (waits s) = rest s
  wait_next rest (left s e) = left s e

  unfoldable pub wait_loop : Supervisor World → List Event → Waiting
  unfolding step wait_next
  wait_loop s [] = waits s
  wait_loop s (e ∷ es) = wait_next (λ t. wait_loop t es) (step s e)

  -- What `supervise` returns.
  pub data Returned : Type 0 where
    nil : Returned
    guest_exited : Option Fault → Returned

  -- Rounds that the attacher makes before `stop` ends it, each behind a change of the world.
  pub last_rounds : List (World → World) → Supervisor World → Supervisor World
  unfolding attach_round
  last_rounds [] s = s
  last_rounds (f ∷ fs) s = last_rounds fs (attach_round (record s { world = f s.world }))

  -- The state when `stop` returns: the timeout of a device that is off the bus is lowered first.
  unfoldable pub drained : List (World → World) → Supervisor World → Supervisor World
  unfolding last_rounds
  drained rounds s =
      let lowered =
        if not (attached s.world) && exists s.world then lower_timeout s.world else s.world in
      last_rounds rounds (record s { world = lowered })

  -- Behind the loop: `late` says whether a signal came as the launcher exited, `rounds` what the
  -- attacher still does, and `is_wlan` whether the device's type is wlan.
  unfoldable pub finish :
      Bool → Bool → List (World → World) → Supervisor World → Option Fault → Returned × World
  unfolding cleanup drained
  finish is_wlan late rounds s e =
      let stopping = s.stopping || late in
      let t = drained rounds s in
      let clean = stopping || is_wlan || not t.attacher.live || not (attached t.world) in
      (if stopping then nil else guest_exited e, if clean then cleanup t.world else t.world)

  -- The state in which the loop starts.
  abbrev pub started : World → Supervisor World
  started w = record {
    attacher = record { stopped = false; live = false; done = false };
    launcher_gone = false;
    stopping = false;
    signalled = 0;
    world = w;
  }
