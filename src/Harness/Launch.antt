-- ===== src/Harness/Launch.antt =====
-- The guest that the tests launch, of tools/internal/harness/launch.go: its command line, and which of
-- the host's processes is its UML.
pub mod Laws
use vkage.Base.{
  ℕ, zero, suc, Bool, true, false, not, ◌&&◌, ◌||◌, List, [], ◌∷◌, ◌++◌, Option, none, some, Bytes,
  codes, ltb, leb, ◌==◌, if◌then◌else◌,
}
use vkage.Report.Memory.{parse_int}

-- `join` is `filepath.Join` of two; an empty options or cgroup is none.
pub record Launch : Type 0 where
  pub build : Bytes
  pub name : Bytes
  pub typ : Bytes
  pub options : Bytes
  pub log_dir : Bytes
  pub devices : List Bytes
  pub args : List Bytes
  pub cgroup : Bytes

device_flags : List Bytes → List Bytes
device_flags [] = []
device_flags (d ∷ ds) = codes "-d" ∷ d ∷ device_flags ds

cgroup_flags : Bytes → List Bytes
cgroup_flags [] = []
cgroup_flags (b ∷ s) = codes "-g" ∷ (b ∷ s) ∷ []

bus_flags : List Bytes → List Bytes
bus_flags [] = []
bus_flags (d ∷ ds) = codes "-b" ∷ []

with_options : Bytes → Bytes
with_options [] = []
with_options (b ∷ s) = b',' ∷ b ∷ s

-- The device's argument of the guest.
unfoldable pub device_arg : Launch → Bytes
unfolding with_options
device_arg l = codes "vduse_guest.device=" ++ (l.typ ++ (b',' ∷ (l.name ++ with_options l.options)))

-- The command line of `LaunchGuest`, below the repository's root.
unfoldable pub launch_argv : (Bytes → Bytes → Bytes) → Bytes → Launch → List Bytes
unfolding device_flags cgroup_flags bus_flags device_arg
launch_argv join root l =
    (join root (codes "build/invirtio-launch")
      ∷ codes "-u"
      ∷ codes "nobody"
      ∷ codes "-t"
      ∷ codes "20"
      ∷ codes "-l"
      ∷ codes "1024"
      ∷ codes "-i"
      ∷ join l.build (codes "initramfs/initramfs.cpio")
      ∷ codes "-e"
      ∷ (l.typ ++ (b',' ∷ (l.name ++ (codes ",log=" ++ join l.log_dir (codes "inflight")))))
      ∷ [])
    ++ (cgroup_flags l.cgroup
        ++ (bus_flags l.devices
            ++ (device_flags l.devices ++ (join l.build (codes "linux") ∷ device_arg l ∷ l.args))))

-- The host's processes: a process's parent, 0 where it is gone, and whether its command line is that of
-- UML. `rounds` bounds how far up the parents are followed.
module _ (parent : ℕ → ℕ) (is_uml : ℕ → Bool) where
  -- The loop of `below`, from a parent.
  unfoldable pub below_from : ℕ → ℕ → ℕ → Bool
  below_from zero launcher p = false
  below_from (suc rounds) launcher p =
      let up = below_from rounds launcher (parent p) in
      if ltb 1 p then if p == launcher then true else up else false

  -- Whether a process is the launcher's UML.
  unfoldable pub is_guest : ℕ → ℕ → ℕ → Bool
  unfolding below_from
  is_guest rounds launcher pid =
      is_uml pid
      && below_from rounds launcher (parent pid)
      && ltb 0 (parent pid)
      && not (is_uml (parent pid))

  pid_next : ℕ → ℕ → Option ℕ → ℕ → ℕ
  unfolding is_guest
  pid_next rounds launcher none later = later
  pid_next rounds launcher (some pid) later = if is_guest rounds launcher pid then pid else later

  -- `UMLPid`, of the names of the processes' directories.
  unfoldable pub uml_pid : ℕ → ℕ → List Bytes → ℕ
  unfolding pid_next parse_int
  uml_pid rounds launcher [] = 0
  uml_pid rounds launcher (name ∷ names) =
      pid_next rounds launcher (parse_int name) (uml_pid rounds launcher names)
