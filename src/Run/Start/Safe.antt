-- ===== src/Run/Start/Safe.antt =====
-- What holds when the launcher of a device's guest is started.
use vkage.Base.{
  ℕ, ◌≡◌, refl, ap, ◌∙◌, ◌⊎◌, Bool, true, false, List, [], ◌∷◌, ◌++◌, Option, none, some, Bytes,
  codes, ok, inl, inr, arith,
}
use mathlib.Core.Path.{subst}
use vkage.Config.Devices.{Device, device_memory_max}
use vkage.Run.Launch.{log_dir}
use vkage.Run.Supervisor.{modules}
use vkage.Run.Cgroup.{setup_cgroup}
use vkage.Run.Cgroup.Bound.{CgroupLaws, IsBounded, setup_cgroup-IsBounded, setup_cgroup-none}
use vkage.Run.Cgroup.Service.{IsService, setup_not_service}
use vkage.Run.Start.{
  StartHost, launched, stopped, refused, fault, no_log_dir, run_dir, cgroup_host, Outcome,
  mount_made, mount_log_dir, with_cgroup, cleaned, locked, unlocked, flocked, locking, in_run_dir,
  with_modules, start,
}
use vkage.Run.Start.Ready.{
  Keeping, Launching, Launched, step-Launched, with_cgroup-Launched, mounted-Launched,
  locked-Launched,
}

module _ (h : StartHost) where
  open (h.vdpa) use {World, Fault}

  -- What the kernel documents of the lock, the mount and the cgroup files: the lock is held from the
  -- call of flock that succeeds until its file is closed, a mount that succeeds stays, and the other
  -- steps change neither; nor do they change the cgroup's files.
  pub record StartLaws : Type 0 where
    pub held : World → Bool
    pub flock_holds : (w : World) → (h.flock w).0 ≡ none → held (h.flock w).1 ≡ true
    pub held_stays : Keeping h (λ w. held w ≡ true)
    pub close_releases : (w : World) → held (h.close_lock w) ≡ false
    pub mounts :
        (dir : Bytes) (w : World)
        → (h.mount_tmpfs dir w).0 ≡ none
        → h.is_mount_point dir (h.mount_tmpfs dir w).1 ≡ true
    pub mount_stays : (dir : Bytes) → Keeping h (λ w. h.is_mount_point dir w ≡ true)
    pub cgroup : CgroupLaws (cgroup_host h)
    pub launch_value :
        (file : Bytes) (args : List Bytes) (w : World)
        → cgroup.value file (h.launch args w).1 ≡ cgroup.value file w
    pub pty_value :
        (file : Bytes) (w : World) → cgroup.value file (h.open_pty w).1 ≡ cgroup.value file w
    pub pipe_value :
        (file : Bytes) (w : World) → cgroup.value file (h.open_pipe w).1 ≡ cgroup.value file w

module _ (h : StartHost) (laws : StartLaws h) where
  open (h.vdpa) use {World, Fault}
  open laws use {held, cgroup}

  -- No cgroup for a process that is not in the service's, or one that is bounded by the limit.
  abbrev IsGuest : Bytes → Device → Bytes → World → Type 0
  IsGuest name dev dir w =
      ((dir ≡ [])
        × ((u : World) × (text : Bytes) × (h.own_cgroup u ≡ ok text) × (¬ IsService name text)))
      ⊎ ((limit : ℕ) × (device_memory_max dev ≡ some limit)
          × IsBounded (cgroup_host h) cgroup limit dir w)

  -- At the launch of a device's guest: this process has the device's lock, the directory of the
  -- in-flight log is mounted, and the guest either has no cgroup of its own, since this process read
  -- that it is not in the service's cgroup, or has one whose memory is bounded by the device's limit.
  pub record IsReady (name : Bytes) (dev : Device) (dir : Bytes) (w : World) : Type 0 where
    pub lock : held w ≡ true
    pub log : h.is_mount_point (log_dir name) w ≡ true
    pub guest : IsGuest name dev dir w

  all-IsReady :
      (name : Bytes) (dev : Device) (o : Outcome h)
      → Launched h (λ dir w. held w ≡ true) o
      → Launched h (λ dir w. h.is_mount_point (log_dir name) w ≡ true) o
      → Launched h (IsGuest name dev) o
      → Launched h (IsReady name dev) o
  all-IsReady name dev (launched dir, w) l m g = record { lock = l; log = m; guest = g }
  all-IsReady name dev (stopped, w) l m g = tt
  all-IsReady name dev (refused e, w) l m g = tt

  IsBounded-moves :
      (limit : ℕ) (dir : Bytes) (w v : World)
      → ((file : Bytes) → cgroup.value file v ≡ cgroup.value file w)
      → IsBounded (cgroup_host h) cgroup limit dir w
      → IsBounded (cgroup_host h) cgroup limit dir v
  IsBounded-moves limit dir w v same b = record {
    memory = same (dir ++ codes "/memory.max") ∙ b.memory;
    pids = same (dir ++ codes "/pids.max") ∙ b.pids;
  }

  IsGuest-moves :
      (name : Bytes) (dev : Device) (dir : Bytes) (w v : World)
      → ((file : Bytes) → cgroup.value file v ≡ cgroup.value file w)
      → IsGuest name dev dir w
      → IsGuest name dev dir v
  IsGuest-moves name dev dir w v same (inl none') = inl none'
  IsGuest-moves name dev dir w v same (inr (limit, e, b)) =
      inr (limit, e, IsBounded-moves limit dir w v same b)

  IsGuest-Launching :
      (name : Bytes) (dev : Device) (dir : Bytes) → Launching h (IsGuest name dev dir)
  IsGuest-Launching name dev dir = record {
    pty = λ w g. IsGuest-moves name dev dir w (h.open_pty w).1 (λ file. laws.pty_value file w) g;
    pipe = λ w g. IsGuest-moves name dev dir w (h.open_pipe w).1 (λ file. laws.pipe_value file w) g;
    launch = λ args w g.
        IsGuest-moves name dev dir w (h.launch args w).1 (λ file. laws.launch_value file args w) g;
  }

  setup_IsGuest :
      (name dir : Bytes) (dev : Device) (o : Option ℕ) (w : World)
      → device_memory_max dev ≡ o
      → (setup_cgroup (cgroup_host h) name o w).0 ≡ ok dir
      → IsGuest name dev dir (setup_cgroup (cgroup_host h) name o w).1
  setup_IsGuest name dir dev none w is e =
      absurd (setup_cgroup-none (cgroup_host h) cgroup name dir w e)
  setup_IsGuest name dir dev (some limit) w is e =
      let r = setup_cgroup (cgroup_host h) name (some limit) w in
      inr (
        limit,
        is,
        setup_cgroup-IsBounded (cgroup_host h) cgroup name limit w r.1 dir (ap (λ x. (x, r.1)) e),
      )

  locked-guest :
      (name : Bytes) (dev : Device) (w : World)
      → Launched h (IsGuest name dev) (locked h name dev w)
  unfolding locked
  locked-guest name dev w =
      let mounted = mount_log_dir h name w in
      let w2 = cleaned h dev.typ mounted.1 in
      step-Launched h (IsGuest name dev) no_log_dir mounted
        (λ w1.
          with_cgroup h name dev
            (setup_cgroup (cgroup_host h) name (device_memory_max dev) (cleaned h dev.typ w1)))
        (λ _.
          with_cgroup-Launched h (IsGuest name dev) name dev
            (setup_cgroup (cgroup_host h) name (device_memory_max dev) w2)
            (IsGuest-Launching name dev)
            (λ dir e. setup_IsGuest name dir dev (device_memory_max dev) w2 refl e)
            (λ e. inl (refl, setup_not_service (cgroup_host h) name (device_memory_max dev) w2 e)))

  mount_made-mounts :
      (dir : Bytes) (r : Option Fault × World)
      → (mount_made h dir r).0 ≡ none
      → h.is_mount_point dir (mount_made h dir r).1 ≡ true
  unfolding mount_made
  mount_made-mounts dir (some e, w) done = absurd (cc done)
  mount_made-mounts dir (none, w) done = ground (arith, laws.mounts dir w)

  locked-log :
      (name : Bytes) (dev : Device) (w : World)
      → Launched h (λ dir w. h.is_mount_point (log_dir name) w ≡ true) (locked h name dev w)
  unfolding locked mount_log_dir
  locked-log name dev w =
      let made = h.mkdir_all (log_dir name) 448 w in
      let mounted = mount_made h (log_dir name) made in
      step-Launched h (λ dir w. h.is_mount_point (log_dir name) w ≡ true) no_log_dir mounted
        (λ w1.
          with_cgroup h name dev
            (setup_cgroup (cgroup_host h) name (device_memory_max dev) (cleaned h dev.typ w1)))
        (λ done.
          mounted-Launched h (λ w. h.is_mount_point (log_dir name) w ≡ true)
            (laws.mount_stays (log_dir name)) name dev mounted.1
            (mount_made-mounts (log_dir name) made done))

  locked-IsReady :
      (name : Bytes) (dev : Device) (w : World)
      → held w ≡ true
      → Launched h (IsReady name dev) (locked h name dev w)
  locked-IsReady name dev w lock =
      all-IsReady name dev (locked h name dev w)
        (locked-Launched h (λ w. held w ≡ true) laws.held_stays name dev w lock)
        (locked-log name dev w) (locked-guest name dev w)

  unlocked-Launched :
      (P : Bytes → World → Type 0) (o : Outcome h) → Launched h P o → Launched h P (unlocked h o)
  unfolding unlocked
  unlocked-Launched P (launched dir, w) p = p
  unlocked-Launched P (stopped, w) p = tt
  unlocked-Launched P (refused e, w) p = tt

  flocked-IsReady :
      (name : Bytes) (dev : Device) (r : Option Fault × World)
      → (r.0 ≡ none → held r.1 ≡ true)
      → Launched h (IsReady name dev) (flocked h name dev r)
  unfolding flocked
  flocked-IsReady name dev (some e, w) lock = tt
  flocked-IsReady name dev (none, w) lock =
      unlocked-Launched (IsReady name dev) (locked h name dev w)
        (locked-IsReady name dev w (lock refl))

  locking-Launched :
      (name : Bytes) (dev : Device) (w : World)
      → Launched h (IsReady name dev) (locking h name dev w)
  unfolding locking
  locking-Launched name dev w =
      let opened = h.open_lock (run_dir ++ (b'/' ∷ (name ++ codes ".lock"))) w in
      step-Launched h (IsReady name dev) fault opened (λ w'. flocked h name dev (h.flock w'))
        (λ _. flocked-IsReady name dev (h.flock opened.1) (laws.flock_holds opened.1))

  in_run_dir-Launched :
      (name : Bytes) (dev : Device) (w : World)
      → Launched h (IsReady name dev) (in_run_dir h name dev w)
  unfolding in_run_dir
  in_run_dir-Launched name dev w =
      step-Launched h (IsReady name dev) fault (h.chmod run_dir 448 w) (locking h name dev)
        (λ _. locking-Launched name dev (h.chmod run_dir 448 w).1)

  with_modules-Launched :
      (name : Bytes) (dev : Device) (w : World)
      → Launched h (IsReady name dev) (with_modules h name dev w)
  unfolding with_modules
  with_modules-Launched name dev w =
      step-Launched h (IsReady name dev) fault (h.mkdir_all run_dir 448 w) (in_run_dir h name dev)
        (λ _. in_run_dir-Launched name dev (h.mkdir_all run_dir 448 w).1)

  start-Launched :
      (name : Bytes) (dev : Device) (w : World) → Launched h (IsReady name dev) (start h name dev w)
  unfolding start
  start-Launched name dev w =
      let loaded = h.modprobe (codes "-a" ∷ modules dev.typ) w in
      step-Launched h (IsReady name dev) fault loaded (with_modules h name dev)
        (λ _. with_modules-Launched name dev loaded.1)

  -- Wherever the host is when the supervisor starts, and whatever its steps answer: if the launcher is
  -- started, then at that moment this process has the device's lock, the directory of the in-flight log
  -- is mounted, and the guest has a cgroup whose memory.max is the device's limit and whose pids.max is
  -- 4096, or has no cgroup of its own, and that only where this process read in /proc/self/cgroup that it
  -- is not in the cgroup of the device's service.
  pub start-IsReady :
      (name dir : Bytes) (dev : Device) (w v : World)
      → start h name dev w ≡ (launched dir, v)
      → IsReady name dev dir v
  start-IsReady name dir dev w v e =
      subst (Launched h (IsReady name dev)) e (start-Launched name dev w)
