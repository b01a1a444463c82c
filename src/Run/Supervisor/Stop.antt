-- ===== src/Run/Supervisor/Stop.antt =====
-- What the supervisor's loop keeps, whatever happens and in whatever order.
use vkage.Base.{◌<◌, ◌≡◌, refl, ◌∙◌, ◌&&◌, Bool, true, false, List, [], ◌∷◌, arith}
use mathlib.Core.Path.{subst}
use vkage.Vdpa.{VdpaHost}
use vkage.Run.Supervisor.{
  Supervisor, attach_round, Event, signal, signal_exited, exited, launcher_exits, attacher_round,
  attacher_deadline, environment, on_signal, Waiting, waits, left, step, wait_loop, wait_next,
  started,
}

-- A signal was passed to the launcher only once the supervisor was stopping, and it is stopping only
-- once the attacher has ended for good.
pub record IsOrdered {World : Type 0} (s : Supervisor World) : Type 0 where
  pub signalled_stopping : 0 < s.signalled → s.stopping ≡ true
  pub stopping_stopped : s.stopping ≡ true → s.attacher.stopped ≡ true
  pub stopping_done : s.stopping ≡ true → s.attacher.done ≡ true

module _ (h : VdpaHost) where
  on_signal-IsOrdered : (s : Supervisor h.World) → IsOrdered s → IsOrdered (on_signal h s)
  unfolding on_signal
  on_signal-IsOrdered s o = ground arith

  attach_round-IsOrdered : (s : Supervisor h.World) → IsOrdered s → IsOrdered (attach_round h s)
  unfolding attach_round
  attach_round-IsOrdered s o = ground arith

  abbrev Ordered : Waiting h → Type 0
  Ordered (waits s) = IsOrdered s
  Ordered (left s e) = Unit

  step-Ordered : (s : Supervisor h.World) (e : Event h) → IsOrdered s → Ordered (step h s e)
  unfolding step
  step-Ordered s signal o = on_signal-IsOrdered s o
  step-Ordered s (signal_exited x) o = tt
  step-Ordered s (exited x) o = tt
  step-Ordered s launcher_exits o = ground arith
  step-Ordered s attacher_round o = attach_round-IsOrdered s o
  step-Ordered s attacher_deadline o = ground arith
  step-Ordered s (environment f) o = ground arith

  wait_next-Ordered :
      (rest : Supervisor h.World → Waiting h) (r : Waiting h)
      → ((s : Supervisor h.World) → IsOrdered s → Ordered (rest s))
      → Ordered r
      → Ordered (wait_next h rest r)
  unfolding wait_next
  wait_next-Ordered rest (waits s) k o = k s o
  wait_next-Ordered rest (left s e) k o = tt

  wait_loop-Ordered :
      (es : List (Event h)) (s : Supervisor h.World) → IsOrdered s → Ordered (wait_loop h s es)
  unfolding wait_loop
  wait_loop-Ordered [] s o = o
  wait_loop-Ordered (e ∷ es) s o =
      wait_next-Ordered (λ t. wait_loop h t es) (step h s e) (wait_loop-Ordered es)
        (step-Ordered s e o)

-- Whatever happens and in whatever order, as long as the supervisor waits: if it has passed a signal
-- to the launcher, it is stopping, and the attacher is stopped and has ended.
pub signalled-stopped :
    (h : VdpaHost) (w : h.World) (es : List (Event h)) (t : Supervisor h.World)
    → wait_loop h (started h w) es ≡ waits t
    → 0 < t.signalled
    → (t.stopping ≡ true) × (t.attacher.stopped ≡ true) × (t.attacher.done ≡ true)
signalled-stopped h w es t eq n =
    let o : IsOrdered t = subst (Ordered h) eq (
      wait_loop-Ordered h es (started h w) (record {
        signalled_stopping = λ k. absurd (omega arith);
        stopping_stopped = λ k. cc;
        stopping_done = λ k. cc;
      })) in
    let s = o.signalled_stopping n in (s, o.stopping_stopped s, o.stopping_done s)

-- What the supervisor and its goroutine do themselves, and the host does not.
abbrev pub is_own : (h : VdpaHost) → Event h → Bool
is_own h (environment f) = false
is_own h _ = true

abbrev pub all_own : (h : VdpaHost) → List (Event h) → Bool
all_own h [] = true
all_own h (e ∷ es) = is_own h e && all_own h es

abbrev pub world_of : (h : VdpaHost) → Waiting h → h.World
world_of h (waits s) = s.world
world_of h (left s e) = s.world

module _ (h : VdpaHost) where
  -- A state in which nothing is left to do to the world.
  abbrev IsStopped : Supervisor h.World → Type 0
  IsStopped s = (s.stopping ≡ true) × (s.attacher.done ≡ true)

  abbrev Same : h.World → Waiting h → Type 0
  Same w (waits s) = (s.world ≡ w) × IsStopped s
  Same w (left s e) = s.world ≡ w

  on_signal-Same : (s : Supervisor h.World) → IsStopped s → Same s.world (waits (on_signal h s))
  unfolding on_signal
  on_signal-Same s i = ground arith

  attach_round-Same :
      (s : Supervisor h.World) → IsStopped s → Same s.world (waits (attach_round h s))
  unfolding attach_round
  attach_round-Same s i = ground arith

  step-Same :
      (s : Supervisor h.World) (e : Event h)
      → IsStopped s
      → is_own h e ≡ true
      → Same s.world (step h s e)
  unfolding step
  step-Same s signal i o = on_signal-Same s i
  step-Same s (signal_exited x) i o = refl
  step-Same s (exited x) i o = refl
  step-Same s launcher_exits i o = (refl, i)
  step-Same s attacher_round i o = attach_round-Same s i
  step-Same s attacher_deadline i o = (refl, (i.0, refl))
  step-Same s (environment f) i o = cc

  wait_next-Same :
      (w : h.World) (rest : Supervisor h.World → Waiting h) (r : Waiting h)
      → ((s : Supervisor h.World) → IsStopped s → world_of h (rest s) ≡ s.world)
      → Same w r
      → world_of h (wait_next h rest r) ≡ w
  unfolding wait_next
  wait_next-Same w rest (waits s) k (e, i) = k s i ∙ e
  wait_next-Same w rest (left s x) k e = e

-- In the wait loop, once the supervisor is stopping and the attacher has ended, the supervisor's own
-- further events leave the world as it is: signals, the launcher's exit and late rounds of the attacher,
-- in any order. What `supervise` does to the host behind the loop is not part of it.
pub stopping-world :
    (h : VdpaHost) (es : List (Event h)) (s : Supervisor h.World)
    → s.stopping ≡ true
    → s.attacher.done ≡ true
    → all_own h es ≡ true
    → world_of h (wait_loop h s es) ≡ s.world
unfolding wait_loop
stopping-world h [] s st d o = refl
stopping-world h (e ∷ es) s st d o =
    wait_next-Same h s.world (λ t. wait_loop h t es) (step h s e)
      (λ t i. stopping-world h es t i.0 i.1 (ground arith)) (step-Same h s e (st, d) (ground arith))
