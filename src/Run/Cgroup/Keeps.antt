-- ===== src/Run/Cgroup/Keeps.antt =====
-- What setting up a guest's cgroup leaves as it finds it.
use vkage.Base.{
  ℕ, List, [], ◌∷◌, Option, none, some, Bytes, Result, ok, err, Bool-cases, inl, inr, split,
}
use vkage.Run.Cgroup.{
  PathError, not_there, already_there, denied, CgroupHost, Step, guest_dir, steps, service_dir,
  service_suffix, has_suffix, unified, step_next, write_steps, made, limited, found_cgroup,
  setup_cgroup, Outcome,
}

module _ (h : CgroupHost) (P : h.World → Type 0)
    (make : (dir : Bytes) (w : h.World) → P w → P (h.make_dir dir w).1)
    (write : (file v : Bytes) (w : h.World) → P w → P (h.write file v w).1) where
  step_next-Keeps :
      (s : Step) (r : Option (PathError h.Fault) × h.World) (next : h.World → Outcome h)
      → P r.1
      → ((w : h.World) → P w → P (next w).1)
      → P (step_next h s r next).1
  unfolding step_next
  step_next-Keeps s (none, w) next p k = k w p
  step_next-Keeps s (some not_there, w) next p k = elim (Bool-cases s.optional) [
    | inl yes' ↦ rw yes' (k w p)
    | inr no' ↦ rw no' p
  ]
  step_next-Keeps s (some already_there, w) next p k = p
  step_next-Keeps s (some (denied e), w) next p k = p

  write_steps-Keeps : (g : Bytes) (ss : List Step) (w : h.World) → P w → P (write_steps h g ss w).1
  unfolding write_steps
  write_steps-Keeps g [] w p = p
  write_steps-Keeps g (s ∷ ss) w p =
      step_next-Keeps s (h.write s.file s.value w) (write_steps h g ss) (write s.file s.value w p)
        (write_steps-Keeps g ss)

  made-Keeps :
      (base : Bytes) (limit : ℕ) (r : Option (PathError h.Fault) × h.World)
      → P r.1
      → P (made h base limit r).1
  unfolding made
  made-Keeps base limit (none, w) p = write_steps-Keeps (guest_dir base) (steps base limit) w p
  made-Keeps base limit (some already_there, w) p =
      write_steps-Keeps (guest_dir base) (steps base limit) w p
  made-Keeps base limit (some not_there, w) p = p
  made-Keeps base limit (some (denied e), w) p = p

  limited-Keeps : (base : Bytes) (o : Option ℕ) (w : h.World) → P w → P (limited h base o w).1
  unfolding limited
  limited-Keeps base none w p = p
  limited-Keeps base (some limit) w p =
      made-Keeps base limit (h.make_dir (guest_dir base) w) (make (guest_dir base) w p)

  found_cgroup-Keeps :
      (name : Bytes) (o : Option ℕ) (r : Result h.Fault Bytes) (w : h.World)
      → P w
      → P (found_cgroup h name o r w).1
  unfolding found_cgroup
  found_cgroup-Keeps name o (err e) w p = p
  found_cgroup-Keeps name o (ok text) w p =
      let rel = unified [] (split text b'\n') in
      elim (Bool-cases (has_suffix rel (service_suffix name))) [
        | inl yes' ↦ rw yes' (limited-Keeps (service_dir rel) o w p)
        | inr no' ↦ rw no' p
      ]

  pub setup_cgroup-Keeps :
      (name : Bytes) (o : Option ℕ) (w : h.World) → P w → P (setup_cgroup h name o w).1
  unfolding setup_cgroup
  setup_cgroup-Keeps name o w p = found_cgroup-Keeps name o (h.own_cgroup w) w p
