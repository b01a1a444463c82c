-- ===== src/Run/Start/Tests.antt =====
-- The start of a supervisor on a small host, and an instance of its theorem.
use vkage.Base.{
  ◌≡◌, refl, Bool, true, false, [], none, some, Bytes, codes, str_eq, ok, cut_prefix, split,
  decimal,
}
use vkage.Vdpa.{VdpaHost, destroy, remove}
use vkage.Host.Sample.{Files, put, put_elsewhere, put_done}
use vkage.Config.Sizes.{memory_max}
use vkage.Config.Devices.{Device, device_memory_max}
use vkage.Run.Cgroup.{setup_cgroup, has_suffix, format_int64}
use vkage.Run.Cgroup.Bound.{CgroupLaws}
use vkage.Run.Supervisor.{cleanup}
use vkage.Run.Start.{StartHost, launched, cgroup_host, start}
use vkage.Run.Start.Ready.{Keeping}
use vkage.Run.Start.Safe.{StartLaws, IsReady, start-IsReady}

record Machine : Type 0 where
  held : Bool
  mounted : Bool
  files : Files

abbrev bus : VdpaHost
bus = record {
  World = Machine;
  Fault = Unit {0};
  exists = λ w. false;
  attached = λ w. false;
  driver = λ w. [];
  dev_add = λ w. (none, w);
  dev_del = λ w. (none, w);
  unbind = λ w. (none, w);
  bind = λ w. (none, w);
  lower_timeout = λ w. w;
  open_control = λ w. none;
  destroy_ioctl = λ w. (none, w);
  pause = λ w. w;
}

abbrev machine : StartHost
machine = record {
  vdpa = bus;
  modprobe = λ args w. (none, w);
  mkdir_all = λ dir m w. (none, w);
  chmod = λ dir m w. (none, w);
  open_lock = λ path w. (none, w);
  flock = λ w. (none, record w { held = true });
  close_lock = λ w. record w { held = false };
  is_mount_point = λ dir w. w.mounted;
  mount_tmpfs = λ dir w. (none, record w { mounted = true });
  own_cgroup = λ w. ok (codes "0::/system.slice/invirtio@wlan0.service/supervisor\n");
  make_dir = λ dir w. (none, w);
  write_cgroup = λ file v w. (none, record w { files = put file (some v) w.files });
  open_pty = λ w. (none, w);
  open_pipe = λ w. (none, w);
  signalled = λ w. false;
  launch = λ args w. (none, w);
}

held_keeping : Keeping machine (λ w. w.held ≡ true)
held_keeping = record {
  mkdir = λ dir m w p. p;
  mount = λ dir w p. p;
  dev_del = λ w p. p;
  timeout = λ w p. p;
  ioctl = λ w p. p;
  pause = λ w p. p;
  make_dir = λ dir w p. p;
  write = λ file v w p. p;
  console = record { pty = λ w p. p; pipe = λ w p. p; launch = λ args w p. p };
}

mounted_keeping : Keeping machine (λ w. w.mounted ≡ true)
mounted_keeping = record {
  mkdir = λ dir m w p. p;
  mount = λ dir w p. refl;
  dev_del = λ w p. p;
  timeout = λ w p. p;
  ioctl = λ w p. p;
  pause = λ w p. p;
  make_dir = λ dir w p. p;
  write = λ file v w p. p;
  console = record { pty = λ w p. p; pipe = λ w p. p; launch = λ args w p. p };
}

cgroup_laws : CgroupLaws (cgroup_host machine)
cgroup_laws = record {
  value = λ file w. w.files file;
  write_sets = λ file v w done. put_done file (some v) w.files;
  write_elsewhere = λ file other v w ne. put_elsewhere file other (some v) w.files ne;
}

abbrev machine_laws : StartLaws machine
machine_laws = record {
  held = λ w. w.held;
  flock_holds = λ w done. refl;
  held_stays = held_keeping;
  close_releases = λ w. refl;
  mounts = λ dir w done. refl;
  mount_stays = λ dir. mounted_keeping;
  cgroup = cgroup_laws;
  launch_value = λ file args w. refl;
  pty_value = λ file w. refl;
  pipe_value = λ file w. refl;
}

abbrev wifi : Device
wifi = record {
  address = codes "0000:02:00.0";
  typ = codes "wlan";
  memory = [];
  memory_max = 1073741824;
  options = [];
  args = [];
  irq_cpus = [];
}

abbrev fresh : Machine
fresh = record { held = false; mounted = false; files = λ p. none }

abbrev ran : Machine
ran = record {
  held = true;
  mounted = true;
  files =
      put (codes "/sys/fs/cgroup/system.slice/invirtio@wlan0.service/guest/pids.max")
        (some (codes "4096"))
        (put (codes "/sys/fs/cgroup/system.slice/invirtio@wlan0.service/guest/memory.swap.max")
          (some (codes "0"))
          (put (codes "/sys/fs/cgroup/system.slice/invirtio@wlan0.service/guest/memory.max")
            (some (codes "1073741824"))
            (put (codes "/sys/fs/cgroup/system.slice/invirtio@wlan0.service/cgroup.subtree_control")
              (some (codes "+memory +pids")) (λ p. none))));
}

abbrev guest : Bytes
guest = codes "/sys/fs/cgroup/system.slice/invirtio@wlan0.service/guest"

runs : start machine (codes "wlan0") wifi fresh ≡ (launched guest, ran)
unfolding start setup_cgroup has_suffix split cut_prefix str_eq device_memory_max memory_max cleanup
    format_int64 destroy decimal remove
runs = refl

start-IsReady_example : IsReady machine machine_laws (codes "wlan0") wifi guest ran
start-IsReady_example = start-IsReady machine machine_laws (codes "wlan0") guest wifi fresh ran runs
