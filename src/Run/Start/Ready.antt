-- ===== src/Run/Start/Ready.antt =====
-- What holds when the launcher is started.
use vkage.Base.{
  ℕ, ◌≡◌, refl, true, List, [], Option, none, some, Bytes, codes, Result, ok, err, Bool-cases, inl,
  inr, str_eq,
}
use vkage.Vdpa.Keeps.{remove-Keeps, destroy-Keeps}
use vkage.Config.Devices.{Device, device_memory_max}
use vkage.Run.Launch.{log_dir, guest_args}
use vkage.Run.Cgroup.{
  CgroupError, not_service, bad_memory, unreadable, not_made, not_written, setup_cgroup,
}
use vkage.Vdpa.{remove}
use vkage.Run.Cgroup.Keeps.{setup_cgroup-Keeps}
use vkage.Run.Supervisor.{cleanup}
use vkage.Run.Start.{
  StartHost, StartError, launched, stopped, refused, fault, no_log_dir, no_console, cgroup_host,
  Outcome, step, mount_made, mount_log_dir, launched_next, with_console, with_cgroup, cleaned,
  locked,
}

module _ (h : StartHost) where
  open (h.vdpa) use {World, Fault}

  -- The last steps keep P.
  pub record Launching (P : World → Type 0) : Type 0 where
    pub pty : (w : World) → P w → P (h.open_pty w).1
    pub pipe : (w : World) → P w → P (h.open_pipe w).1
    pub launch : (args : List Bytes) (w : World) → P w → P (h.launch args w).1

  -- The steps behind the lock keep P.
  pub record Keeping (P : World → Type 0) : Type 0 where
    pub mkdir : (dir : Bytes) (m : ℕ) (w : World) → P w → P (h.mkdir_all dir m w).1
    pub mount : (dir : Bytes) (w : World) → P w → P (h.mount_tmpfs dir w).1
    pub dev_del : (w : World) → P w → P ((h.vdpa).dev_del w).1
    pub timeout : (w : World) → P w → P ((h.vdpa).lower_timeout w)
    pub ioctl : (w : World) → P w → P ((h.vdpa).destroy_ioctl w).1
    pub pause : (w : World) → P w → P ((h.vdpa).pause w)
    pub make_dir : (dir : Bytes) (w : World) → P w → P (h.make_dir dir w).1
    pub write : (file v : Bytes) (w : World) → P w → P (h.write_cgroup file v w).1
    pub console : Launching P

  -- If the launcher runs, P holds, with the cgroup.
  abbrev pub Launched : (Bytes → World → Type 0) → Outcome h → Type 0
  Launched P (launched cgroup, w) = P cgroup w
  Launched P (stopped, w) = Unit
  Launched P (refused e, w) = Unit

  module _ (P : Bytes → World → Type 0) where
    pub step-Launched :
        (f : Fault → StartError Fault) (r : Option Fault × World) (next : World → Outcome h)
        → (r.0 ≡ none → Launched P (next r.1))
        → Launched P (step h f r next)
    unfolding step
    step-Launched f (none, w) next k = k refl
    step-Launched f (some e, w) next k = tt

    launched_next-Launched :
        (cgroup : Bytes) (r : Option Fault × World)
        → P cgroup r.1
        → Launched P (launched_next h cgroup r)
    unfolding launched_next
    launched_next-Launched cgroup (none, w) p = p
    launched_next-Launched cgroup (some e, w) p = tt

    with_console-Launched :
        (name : Bytes) (dev : Device) (cgroup : Bytes) (w : World)
        → Launching (P cgroup)
        → P cgroup w
        → Launched P (with_console h name dev cgroup w)
    unfolding with_console
    with_console-Launched name dev cgroup w k p = step-Launched no_console (h.open_pty w) _ (λ _.
        step-Launched fault (h.open_pipe (h.open_pty w).1) _ (λ _.
          let w2 = (h.open_pipe (h.open_pty w).1).1 in
          let p2 = k.pipe (h.open_pty w).1 (k.pty w p) in
          elim (Bool-cases (h.signalled w2)) [
            | inl yes' ↦ rw (yes', Launched) tt
            | inr no' ↦
                rw (no', Launched)
                  (launched_next-Launched cgroup (h.launch (guest_args name dev cgroup) w2)
                    (k.launch (guest_args name dev cgroup) w2 p2))
          ]))

    pub with_cgroup-Launched :
        (name : Bytes) (dev : Device) (r : Result (CgroupError Fault) Bytes × World)
        → ((cgroup : Bytes) → Launching (P cgroup))
        → ((dir : Bytes) → r.0 ≡ ok dir → P dir r.1)
        → (r.0 ≡ err not_service → P [] r.1)
        → Launched P (with_cgroup h name dev r)
    unfolding with_cgroup
    with_cgroup-Launched name dev (ok dir, w) k p q =
        with_console-Launched name dev dir w (k dir) (p dir refl)
    with_cgroup-Launched name dev (err not_service, w) k p q =
        with_console-Launched name dev [] w (k []) (q refl)
    with_cgroup-Launched name dev (err bad_memory, w) k p q = tt
    with_cgroup-Launched name dev (err (unreadable e), w) k p q = tt
    with_cgroup-Launched name dev (err (not_made e), w) k p q = tt
    with_cgroup-Launched name dev (err (not_written f e), w) k p q = tt

  module _ (P : World → Type 0) (k : Keeping P) where
    pub cleaned-Keeps : (typ : Bytes) (w : World) → P w → P (cleaned h typ w)
    unfolding cleaned cleanup
    cleaned-Keeps typ w p = elim (Bool-cases (str_eq typ (codes "wlan"))) [
      | inl yes' ↦ rw yes' (
          destroy-Keeps h.vdpa P k.ioctl k.pause (remove h.vdpa true w).1
            (remove-Keeps h.vdpa P k.dev_del k.timeout w p))
      | inr no' ↦ rw no' p
    ]

    pub mount_made-Keeps :
        (dir : Bytes) (r : Option Fault × World) → P r.1 → P (mount_made h dir r).1
    unfolding mount_made
    mount_made-Keeps dir (some e, w) p = p
    mount_made-Keeps dir (none, w) p = elim (Bool-cases (h.is_mount_point dir w)) [
      | inl yes' ↦ rw yes' p
      | inr no' ↦ rw no' (k.mount dir w p)
    ]

    -- What holds once the directory of the log is mounted still holds at the launch.
    pub mounted-Launched :
        (name : Bytes) (dev : Device) (w : World)
        → P w
        → Launched
            (λ cgroup. P)
            (with_cgroup h name dev
              (setup_cgroup (cgroup_host h) name (device_memory_max dev) (cleaned h dev.typ w)))
    mounted-Launched name dev w p =
        let q =
          setup_cgroup-Keeps (cgroup_host h) P k.make_dir k.write name (device_memory_max dev)
            (cleaned h dev.typ w) (cleaned-Keeps dev.typ w p) in
        with_cgroup-Launched (λ cgroup. P) name dev
          (setup_cgroup (cgroup_host h) name (device_memory_max dev) (cleaned h dev.typ w))
          (λ cgroup. k.console) (λ dir e. q) (λ e. q)

    pub locked-Launched :
        (name : Bytes) (dev : Device) (w : World)
        → P w
        → Launched (λ cgroup. P) (locked h name dev w)
    unfolding locked mount_log_dir
    locked-Launched name dev w p =
        let made = h.mkdir_all (log_dir name) 448 w in
        step-Launched (λ cgroup. P) no_log_dir (mount_made h (log_dir name) made)
          (λ w1.
            with_cgroup h name dev
              (setup_cgroup (cgroup_host h) name (device_memory_max dev) (cleaned h dev.typ w1)))
          (λ _.
            mounted-Launched name dev (mount_made h (log_dir name) made).1
              (mount_made-Keeps (log_dir name) made (k.mkdir (log_dir name) 448 w p)))
