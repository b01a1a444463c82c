-- ===== src/Run/Supervisor/Tests.antt =====
-- Runs of the supervisor over a small host, and instances of its theorems there.
use vkage.Base.{
  ℕ, ◌≡◌, refl, Bool, true, false, List, [], ◌∷◌, none, some, arith, codes, Bytes, str_eq,
  if◌then◌else◌,
}
use vkage.Vdpa.{VdpaHost, busy, remove, destroy, bind_virtio, add}
use vkage.Vdpa.Laws.{VdpaLaws, destroy_gone}
use vkage.Run.Supervisor.{
  Supervisor, Event, signal, exited, launcher_exits, attacher_round, environment, wait_loop, waits,
  step, started, attach_round, on_signal, drained, finish, cleanup, guest_exited,
}
use vkage.Run.Supervisor.Stop.{signalled-stopped, stopping-world, world_of}
use vkage.Run.Supervisor.Finish.{finish-attached, finish_not_live}

-- A host with one VDUSE device.
pub record Small : Type 0 where
  pub made : Bool
  pub on_bus : Bool
  pub bound : Bytes

-- Its commands do what they are asked, and a destroying ioctl is refused on the bus.
abbrev small : VdpaHost
small = record {
  World = Small;
  Fault = ℕ;
  exists = λ w. w.made;
  attached = λ w. w.on_bus;
  driver = λ w. w.bound;
  dev_add = λ w. (none, record w { on_bus = true });
  dev_del = λ w. (none, record w { on_bus = false; bound = [] });
  unbind = λ w. (none, record w { bound = [] });
  bind = λ w. (none, record w { bound = codes "virtio_vdpa" });
  lower_timeout = λ w. w;
  open_control = λ w. none;
  destroy_ioctl = λ w. if w.on_bus then (some busy, w) else (none, record w { made = false });
  pause = λ w. w;
}

abbrev small_laws : VdpaLaws small
small_laws = record {
  del_removes = λ w ok. refl;
  ioctl_destroys = λ w ok. ground arith;
  ioctl_off_bus = λ w off. ground arith;
  pause_off_bus = λ w off. off;
}

abbrev absent : Small
absent = record { made = false; on_bus = false; bound = [] }

abbrev present : Small
present = record { made = true; on_bus = true; bound = codes "virtio_vdpa" }

-- The guest creates its device, the attacher adds it and finds it live, and a signal removes it.
abbrev life : List (Event small)
life = environment (λ w. record w { made = true }) ∷ attacher_round ∷ attacher_round ∷ signal ∷ []

abbrev ended : Supervisor Small
ended = record {
  attacher = record { stopped = true; live = true; done = true };
  launcher_gone = false;
  stopping = true;
  signalled = 1;
  world = record { made = true; on_bus = false; bound = [] };
}

life_ends : wait_loop small (started small absent) life ≡ waits ended
unfolding wait_loop step attach_round on_signal add bind_virtio remove str_eq
life_ends = refl

signalled-stopped_example :
    (ended.stopping ≡ true) × (ended.attacher.stopped ≡ true) × (ended.attacher.done ≡ true)
signalled-stopped_example = signalled-stopped small absent life ended life_ends (omega arith)

stopping-world_example :
    world_of small
      (wait_loop small ended (signal ∷ attacher_round ∷ launcher_exits ∷ exited none ∷ []))
    ≡ ended.world
stopping-world_example =
    stopping-world small (signal ∷ attacher_round ∷ launcher_exits ∷ exited none ∷ []) ended refl
      refl refl

-- A net device whose live guest has died.
abbrev died : Supervisor Small
died = record {
  attacher = record { stopped = false; live = true; done = true };
  launcher_gone = true;
  stopping = false;
  signalled = 0;
  world = present;
}

died_attached : (finish small false false [] died (some 1)).1.on_bus ≡ true
unfolding finish drained
died_attached = refl

finish-attached_instance :
    (false ≡ false)
    × (died.stopping ≡ false)
    × (false ≡ false)
    × ((drained small [] died).attacher.live ≡ true)
    × ((finish small false false [] died (some 1)).0 ≡ guest_exited (some 1))
finish-attached_instance =
    finish-attached small small_laws (λ w. refl) false false [] died (some 1) died_attached

-- A guest that died before the attacher has found its device on the bus, which it adds afterwards.
abbrev early : Supervisor Small
early = record died {
  attacher = record { stopped = false; live = false; done = false };
  world = record { made = true; on_bus = false; bound = [] };
}

abbrev two_rounds : List (Small → Small)
two_rounds = (λ w. w) ∷ (λ w. w) ∷ []

early_added : (drained small two_rounds early).world.on_bus ≡ true
unfolding drained attach_round add bind_virtio str_eq
early_added = refl

finish_not_live_example : (finish small false false two_rounds early none).1.on_bus ≡ false
finish_not_live_example =
    finish_not_live small small_laws (λ w. refl) false false two_rounds early none refl refl

early_destroyed : (finish small false false two_rounds early none).1.made ≡ false
unfolding finish drained attach_round add bind_virtio cleanup remove destroy str_eq
early_destroyed = refl

abbrev off_bus : Small
off_bus = record { made = true; on_bus = false; bound = [] }

off_bus_destroyed : (destroy small off_bus).0 ≡ none
unfolding destroy
off_bus_destroyed = refl

destroy_gone_instance :
    (small.exists (destroy small off_bus).1 ≡ false)
    × (small.attached (destroy small off_bus).1 ≡ false)
destroy_gone_instance = destroy_gone small small_laws off_bus refl off_bus_destroyed
