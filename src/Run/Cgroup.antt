-- ===== src/Run/Cgroup.antt =====
-- `setupCgroup` of tools/cmd/invirtio/run.go, over the cgroup files of the host.
pub mod Bound
pub mod Keeps
pub mod Service
use vkage.Base.{
  ℕ, ◌-◌, ◌^◌, Bool, true, false, ◌&&◌, List, [], ◌∷◌, ◌++◌, Option, none, some, Bytes, codes,
  str_eq, decimal, split, cut_prefix, length, take, drop, leb, if◌then◌else◌, Result, ok, err,
}
use vkage.Config.Sizes.{max_int64}

-- How a write to a file, or the making of a directory, fails.
pub data PathError (Fault : Type 0) : Type 0 where
  not_there already_there : PathError Fault
  denied : Fault → PathError Fault

-- `own_cgroup` reads /proc/self/cgroup.
pub record CgroupHost : Type 1 where
  pub World : Type 0
  pub Fault : Type 0
  pub own_cgroup : World → Result Fault Bytes
  pub make_dir : Bytes → World → Option (PathError Fault) × World
  pub write : Bytes → Bytes → World → Option (PathError Fault) × World

pub data CgroupError (Fault : Type 0) : Type 0 where
  not_service : CgroupError Fault
  bad_memory : CgroupError Fault
  unreadable : Fault → CgroupError Fault
  not_made : PathError Fault → CgroupError Fault
  not_written : Bytes → PathError Fault → CgroupError Fault

-- `strings.HasSuffix`.
unfoldable pub has_suffix : Bytes → Bytes → Bool
has_suffix s t = leb (length t) (length s) && str_eq (drop (length s - length t) s) t

-- The loop over the lines: the last that begins with "0::" counts.
unfoldable pub unified : Bytes → List Bytes → Bytes
unified rel [] = rel
unified rel (l ∷ ls) = unified (elim (cut_prefix l (codes "0::")) [ none ↦ rel | some p ↦ p ]) ls

-- The end of the supervisor's own cgroup.
abbrev pub service_suffix : Bytes → Bytes
service_suffix name = codes "/invirtio@" ++ (name ++ codes ".service/supervisor")

-- `filepath.Dir` of a path that ends in "/supervisor", below the mount of the hierarchy.
abbrev pub service_dir : Bytes → Bytes
service_dir rel = codes "/sys/fs/cgroup" ++ take (length rel - 11) rel

-- `strconv.FormatInt` of an int64.
unfoldable pub format_int64 : ℕ → Bytes
format_int64 n = if leb n max_int64 then decimal n else b'-' ∷ decimal (2 ^ 64 - n)

pub record Step : Type 0 where
  pub file : Bytes
  pub value : Bytes
  pub optional : Bool

abbrev pub guest_dir : Bytes → Bytes
guest_dir base = base ++ codes "/guest"

abbrev pub steps : Bytes → ℕ → List Step
steps base limit =
    record {
      file = base ++ codes "/cgroup.subtree_control";
      value = codes "+memory +pids";
      optional = false;
    }
    ∷ record {
      file = guest_dir base ++ codes "/memory.max";
      value = format_int64 limit;
      optional = false;
    }
    ∷ record {
      file = guest_dir base ++ codes "/memory.swap.max";
      value = codes "0";
      optional = true;
    }
    ∷ record { file = guest_dir base ++ codes "/pids.max"; value = codes "4096"; optional = false }
    ∷ []

module _ (h : CgroupHost) where
  open h use {World, Fault}

  abbrev Outcome : Type 0
  Outcome = Result (CgroupError Fault) Bytes × World

  -- A round of the loop over the steps; `next` is the rest.
  step_next : Step → Option (PathError Fault) × World → (World → Outcome) → Outcome
  step_next s (none, w) next = next w
  step_next s (some not_there, w) next =
      if s.optional then next w else (err (not_written s.file not_there), w)
  step_next s (some already_there, w) next = (err (not_written s.file already_there), w)
  step_next s (some (denied e), w) next = (err (not_written s.file (denied e)), w)

  write_steps : Bytes → List Step → World → Outcome
  unfolding step_next
  write_steps guest [] w = (ok guest, w)
  write_steps guest (s ∷ ss) w = step_next s (h.write s.file s.value w) (write_steps guest ss)

  made : Bytes → ℕ → Option (PathError Fault) × World → Outcome
  unfolding write_steps
  made base limit (none, w) = write_steps (guest_dir base) (steps base limit) w
  made base limit (some already_there, w) = write_steps (guest_dir base) (steps base limit) w
  made base limit (some not_there, w) = (err (not_made not_there), w)
  made base limit (some (denied e), w) = (err (not_made (denied e)), w)

  limited : Bytes → Option ℕ → World → Outcome
  unfolding made
  limited base none w = (err bad_memory, w)
  limited base (some limit) w = made base limit (h.make_dir (guest_dir base) w)

  found_cgroup : Bytes → Option ℕ → Result Fault Bytes → World → Outcome
  unfolding limited unified
  found_cgroup name limit (err e) w = (err (unreadable e), w)
  found_cgroup name limit (ok text) w =
      let rel = unified [] (split text b'\n') in
      if has_suffix rel (service_suffix name)
      then limited (service_dir rel) limit w
      else (err not_service, w)

  -- `limit` is what the device's `memoryMax` returns.
  unfoldable pub setup_cgroup : Bytes → Option ℕ → World → Outcome
  unfolding found_cgroup
  setup_cgroup name limit w = found_cgroup name limit (h.own_cgroup w) w
