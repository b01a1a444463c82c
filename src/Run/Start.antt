-- ===== src/Run/Start.antt =====
-- The start of `supervise` of tools/cmd/invirtio/run.go, up to the launcher, with `lockDevice` and
-- `mountLogDir`. File descriptors other than the lock's are not modelled; a stop signal that has come is
-- read of the world.
pub mod Ready
pub mod Safe
mod Tests
use vkage.Base.{
  ℕ, Bool, true, false, List, [], ◌∷◌, ◌++◌, Option, none, some, Bytes, codes, str_eq,
  if◌then◌else◌, Result, ok, err,
}
use vkage.Vdpa.{VdpaHost}
use vkage.Config.Devices.{Device, device_memory_max}
use vkage.Run.Launch.{log_dir, guest_args}
use vkage.Run.Cgroup.{
  PathError, CgroupHost, CgroupError, not_service, bad_memory, unreadable, not_made, not_written,
  setup_cgroup,
}
use vkage.Run.Supervisor.{modules, cleanup}

-- The host of a device's supervisor. `flock` fails if another process has the lock.
pub record StartHost : Type 1 where
  pub vdpa : VdpaHost
  pub modprobe : List Bytes → vdpa.World → Option vdpa.Fault × vdpa.World
  pub mkdir_all : Bytes → ℕ → vdpa.World → Option vdpa.Fault × vdpa.World
  pub chmod : Bytes → ℕ → vdpa.World → Option vdpa.Fault × vdpa.World
  pub open_lock : Bytes → vdpa.World → Option vdpa.Fault × vdpa.World
  pub flock : vdpa.World → Option vdpa.Fault × vdpa.World
  pub close_lock : vdpa.World → vdpa.World
  pub is_mount_point : Bytes → vdpa.World → Bool
  pub mount_tmpfs : Bytes → vdpa.World → Option vdpa.Fault × vdpa.World
  pub own_cgroup : vdpa.World → Result vdpa.Fault Bytes
  pub make_dir : Bytes → vdpa.World → Option (PathError vdpa.Fault) × vdpa.World
  pub write_cgroup : Bytes → Bytes → vdpa.World → Option (PathError vdpa.Fault) × vdpa.World
  pub open_pty : vdpa.World → Option vdpa.Fault × vdpa.World
  pub open_pipe : vdpa.World → Option vdpa.Fault × vdpa.World
  pub signalled : vdpa.World → Bool
  pub launch : List Bytes → vdpa.World → Option vdpa.Fault × vdpa.World

pub data StartError (Fault : Type 0) : Type 0 where
  fault : Fault → StartError Fault
  taken : StartError Fault
  no_log_dir : Fault → StartError Fault
  no_cgroup : CgroupError Fault → StartError Fault
  no_console : Fault → StartError Fault

-- The launcher runs, with the guest's cgroup, which is empty where it has none; or `supervise` has
-- returned, with nil at a stop signal.
pub data Started (Fault : Type 0) : Type 0 where
  launched : Bytes → Started Fault
  stopped : Started Fault
  refused : StartError Fault → Started Fault

abbrev pub run_dir : Bytes
run_dir = codes "/run/invirtio"

module _ (h : StartHost) where
  open (h.vdpa) use {World, Fault}

  abbrev pub cgroup_host : CgroupHost
  cgroup_host = record {
    World = World;
    Fault = Fault;
    own_cgroup = h.own_cgroup;
    make_dir = h.make_dir;
    write = h.write_cgroup;
  }

  abbrev pub Outcome : Type 0
  Outcome = Started Fault × World

  -- A step whose error ends the start.
  pub step : (Fault → StartError Fault) → Option Fault × World → (World → Outcome) → Outcome
  step f (none, w) next = next w
  step f (some e, w) next = (refused (f e), w)

  -- `mountLogDir`, behind the making of the directory.
  pub mount_made : Bytes → Option Fault × World → Option Fault × World
  mount_made dir (some e, w) = (some e, w)
  mount_made dir (none, w) = if h.is_mount_point dir w then (none, w) else h.mount_tmpfs dir w

  unfoldable pub mount_log_dir : Bytes → World → Option Fault × World
  unfolding mount_made
  mount_log_dir name w = mount_made (log_dir name) (h.mkdir_all (log_dir name) 448 w)

  launched_next : Bytes → Option Fault × World → Outcome
  launched_next cgroup (none, w) = (launched cgroup, w)
  launched_next cgroup (some e, w) = (refused (fault e), w)

  with_console : Bytes → Device → Bytes → World → Outcome
  unfolding step launched_next
  with_console name dev cgroup w = step no_console (h.open_pty w) (λ w1.
      step fault (h.open_pipe w1) (λ w2.
        if h.signalled w2
        then (stopped, w2)
        else launched_next cgroup (h.launch (guest_args name dev cgroup) w2)))

  pub with_cgroup : Bytes → Device → Result (CgroupError Fault) Bytes × World → Outcome
  unfolding with_console
  with_cgroup name dev (ok dir, w) = with_console name dev dir w
  with_cgroup name dev (err not_service, w) = with_console name dev [] w
  with_cgroup name dev (err bad_memory, w) = (refused (no_cgroup bad_memory), w)
  with_cgroup name dev (err (unreadable e), w) = (refused (no_cgroup (unreadable e)), w)
  with_cgroup name dev (err (not_made e), w) = (refused (no_cgroup (not_made e)), w)
  with_cgroup name dev (err (not_written f e), w) = (refused (no_cgroup (not_written f e)), w)

  -- A wlan device that an earlier guest left is removed.
  pub cleaned : Bytes → World → World
  cleaned typ w = if str_eq typ (codes "wlan") then cleanup h.vdpa w else w

  -- What is done with the lock held.
  pub locked : Bytes → Device → World → Outcome
  unfolding step mount_log_dir cleaned with_cgroup
  locked name dev w = step no_log_dir (mount_log_dir name w) (λ w1.
      with_cgroup name dev
        (setup_cgroup cgroup_host name (device_memory_max dev) (cleaned dev.typ w1)))

  -- The deferred closing of the lock, unless the launcher runs.
  pub unlocked : Outcome → Outcome
  unlocked (launched cgroup, w) = (launched cgroup, w)
  unlocked (stopped, w) = (stopped, h.close_lock w)
  unlocked (refused e, w) = (refused e, h.close_lock w)

  -- Behind the opening of the lock's file.
  pub flocked : Bytes → Device → Option Fault × World → Outcome
  unfolding locked unlocked
  flocked name dev (some e, w) = (refused taken, h.close_lock w)
  flocked name dev (none, w) = unlocked (locked name dev w)

  pub locking : Bytes → Device → World → Outcome
  unfolding step flocked
  locking name dev w =
      step fault (h.open_lock (run_dir ++ (b'/' ∷ (name ++ codes ".lock"))) w)
        (λ w'. flocked name dev (h.flock w'))

  pub in_run_dir : Bytes → Device → World → Outcome
  unfolding step locking
  in_run_dir name dev w = step fault (h.chmod run_dir 448 w) (locking name dev)

  pub with_modules : Bytes → Device → World → Outcome
  unfolding step in_run_dir
  with_modules name dev w = step fault (h.mkdir_all run_dir 448 w) (in_run_dir name dev)

  unfoldable pub start : Bytes → Device → World → Outcome
  unfolding step with_modules
  start name dev w =
      step fault (h.modprobe (codes "-a" ∷ modules dev.typ) w) (with_modules name dev)
