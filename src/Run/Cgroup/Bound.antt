-- ===== src/Run/Cgroup/Bound.antt =====
-- What a guest's cgroup holds once it is set up.
use vkage.Base.{
  ℕ, ◌≡◌, ◌≢◌, refl, ap, ◌∙◌, false, List, [], ◌∷◌, ◌++◌, Option, none, some, Bytes, codes, length,
  length-append, arith, Result, ok, err, Bool-cases, inl, inr, sym, split,
}
use mathlib.Core.Path.{subst}
use vkage.Run.Cgroup.{
  has_suffix, service_suffix, unified, PathError, not_there, already_there, denied, CgroupHost,
  Step, guest_dir, steps, service_dir, step_next, write_steps, made, limited, found_cgroup,
  setup_cgroup, format_int64, Outcome,
}

-- `value` is what a cgroup file was set to. A write that succeeds sets its file and no other.
pub record CgroupLaws (h : CgroupHost) : Type 0 where
  pub value : Bytes → h.World → Option Bytes
  pub write_sets :
      (file v : Bytes) (w : h.World)
      → (h.write file v w).0 ≡ none
      → value file (h.write file v w).1 ≡ some v
  pub write_elsewhere :
      (file other v : Bytes) (w : h.World)
      → other ≢ file
      → value other (h.write file v w).1 ≡ value other w

longer : (g a b : Bytes) → length a ≢ length b → g ++ a ≢ g ++ b
longer g a b ne e = ne (omega (arith, length-append g a, length-append g b, ap length e))

module _ (h : CgroupHost) (laws : CgroupLaws h) where
  open laws use {value}

  -- The memory and the processes of the guest are bounded.
  pub record IsBounded (limit : ℕ) (dir : Bytes) (w : h.World) : Type 0 where
    pub memory : value (dir ++ codes "/memory.max") w ≡ some (format_int64 limit)
    pub pids : value (dir ++ codes "/pids.max") w ≡ some (codes "4096")

  abbrev Sets : Bytes → Bytes → Outcome h → Type 0
  Sets file v (ok dir, w) = value file w ≡ some v
  Sets file v (err e, w) = Unit

  -- The steps keep what they do not write.
  abbrev Avoid : Bytes → List Step → Type 0
  Avoid file [] = Unit
  Avoid file (s ∷ ss) = (file ≢ s.file) × Avoid file ss

  step_next-Sets :
      (file v : Bytes) (s : Step) (r : Option (PathError h.Fault) × h.World)
      (next : h.World → Outcome h)
      → ((w : h.World) → value file w ≡ value file r.1 → Sets file v (next w))
      → Sets file v (step_next h s r next)
  unfolding step_next
  step_next-Sets file v s (none, w) next k = k w refl
  step_next-Sets file v s (some not_there, w) next k = elim (Bool-cases s.optional) [
    | inl yes' ↦ rw (yes', Sets) (k w refl)
    | inr no' ↦ rw (no', Sets) tt
  ]
  step_next-Sets file v s (some already_there, w) next k = tt
  step_next-Sets file v s (some (denied e), w) next k = tt

  later-Sets :
      (file v dir : Bytes) (ss : List Step) (w : h.World)
      → Avoid file ss
      → value file w ≡ some v
      → Sets file v (write_steps h dir ss w)
  unfolding write_steps
  later-Sets file v dir [] w a e = e
  later-Sets file v dir (s ∷ ss) w (ne, as') e =
      step_next-Sets file v s (h.write s.file s.value w) (write_steps h dir ss) (λ w' same.
        later-Sets file v dir ss w' as' (same ∙ laws.write_elsewhere s.file file s.value w ne ∙ e))

  -- A step that is not optional has been done, if the loop gets through.
  done_next-Sets :
      (s : Step) (r : Option (PathError h.Fault) × h.World) (next : h.World → Outcome h)
      → s.optional ≡ false
      → (r.0 ≡ none → Sets s.file s.value (next r.1))
      → Sets s.file s.value (step_next h s r next)
  unfolding step_next
  done_next-Sets s (none, w) next o k = k refl
  done_next-Sets s (some not_there, w) next o k = rw (o, Sets) tt
  done_next-Sets s (some already_there, w) next o k = tt
  done_next-Sets s (some (denied e), w) next o k = tt

  step-Sets :
      (s : Step) (dir : Bytes) (ss : List Step) (w : h.World)
      → s.optional ≡ false
      → Avoid s.file ss
      → Sets s.file s.value (write_steps h dir (s ∷ ss) w)
  unfolding write_steps
  step-Sets s dir ss w o a =
      done_next-Sets s (h.write s.file s.value w) (write_steps h dir ss) o (λ done.
        later-Sets s.file s.value dir ss (h.write s.file s.value w).1 a
          (laws.write_sets s.file s.value w done))

  skip-Sets :
      (file v dir : Bytes) (s : Step) (ss : List Step) (w : h.World)
      → ((w' : h.World) → Sets file v (write_steps h dir ss w'))
      → Sets file v (write_steps h dir (s ∷ ss) w)
  unfolding write_steps
  skip-Sets file v dir s ss w k =
      step_next-Sets file v s (h.write s.file s.value w) (write_steps h dir ss) (λ w' same. k w')

  -- The directory that is returned.
  abbrev IsDir : Bytes → Outcome h → Type 0
  IsDir g (ok dir, w) = dir ≡ g
  IsDir g (err e, w) = Unit

  step_next-IsDir :
      (g : Bytes) (s : Step) (r : Option (PathError h.Fault) × h.World) (next : h.World → Outcome h)
      → ((w : h.World) → IsDir g (next w))
      → IsDir g (step_next h s r next)
  unfolding step_next
  step_next-IsDir g s (none, w) next k = k w
  step_next-IsDir g s (some not_there, w) next k = elim (Bool-cases s.optional) [
    | inl yes' ↦ rw (yes', IsDir) (k w)
    | inr no' ↦ rw (no', IsDir) tt
  ]
  step_next-IsDir g s (some already_there, w) next k = tt
  step_next-IsDir g s (some (denied e), w) next k = tt

  write_steps-IsDir : (g : Bytes) (ss : List Step) (w : h.World) → IsDir g (write_steps h g ss w)
  unfolding write_steps
  write_steps-IsDir g [] w = refl
  write_steps-IsDir g (s ∷ ss) w =
      step_next-IsDir g s (h.write s.file s.value w) (write_steps h g ss) (write_steps-IsDir g ss)

  abbrev Bounded : ℕ → Outcome h → Type 0
  Bounded limit (ok dir, w) = IsBounded limit dir w
  Bounded limit (err e, w) = Unit

  Bounded-parts :
      (limit : ℕ) (g : Bytes) (o : Outcome h)
      → IsDir g o
      → Sets (g ++ codes "/memory.max") (format_int64 limit) o
      → Sets (g ++ codes "/pids.max") (codes "4096") o
      → Bounded limit o
  Bounded-parts limit g (err e, w) d m p = tt
  Bounded-parts limit g (ok dir, w) d m p =
      subst (λ x. IsBounded limit x w) (sym d) (record { memory = m; pids = p })

  write_steps-Bounded :
      (base : Bytes) (limit : ℕ) (w : h.World)
      → Bounded limit (write_steps h (guest_dir base) (steps base limit) w)
  write_steps-Bounded base limit w =
      let g = guest_dir base in
      Bounded-parts limit g (write_steps h g (steps base limit) w)
        (write_steps-IsDir g (steps base limit) w)
        (skip-Sets _ _ g _ _ w (λ w1. step-Sets _ g _ w1 refl (
          longer g (codes "/memory.max") (codes "/memory.swap.max")
              (λ e. absurd (omega (arith, e))),
          (longer g (codes "/memory.max") (codes "/pids.max") (λ e. absurd (omega (arith, e))), tt),
        )))
        (skip-Sets _ _ g _ _ w (λ w1.
          skip-Sets _ _ g _ _ w1
            (λ w2. skip-Sets _ _ g _ _ w2 (λ w3. step-Sets _ g [] w3 refl tt))))

  made-Bounded :
      (base : Bytes) (limit : ℕ) (r : Option (PathError h.Fault) × h.World)
      → Bounded limit (made h base limit r)
  unfolding made
  made-Bounded base limit (none, w) = write_steps-Bounded base limit w
  made-Bounded base limit (some already_there, w) = write_steps-Bounded base limit w
  made-Bounded base limit (some not_there, w) = tt
  made-Bounded base limit (some (denied e), w) = tt

  found_cgroup-Bounded :
      (name : Bytes) (limit : ℕ) (r : Result h.Fault Bytes) (w : h.World)
      → Bounded limit (found_cgroup h name (some limit) r w)
  unfolding found_cgroup limited
  found_cgroup-Bounded name limit (err e) w = tt
  found_cgroup-Bounded name limit (ok text) w =
      let rel = unified [] (split text b'\n') in
      elim (Bool-cases (has_suffix rel (service_suffix name))) [
        | inl yes' ↦
            rw (yes', Bounded)
              (made-Bounded (service_dir rel) limit (h.make_dir (guest_dir (service_dir rel)) w))
        | inr no' ↦ rw (no', Bounded) tt
      ]

  -- A guest's cgroup that is set up without an error bounds the guest: whatever was in the files before,
  -- its memory.max is the limit and its pids.max is 4096.
  pub setup_cgroup-IsBounded :
      (name : Bytes) (limit : ℕ) (w v : h.World) (dir : Bytes)
      → setup_cgroup h name (some limit) w ≡ (ok dir, v)
      → IsBounded limit dir v
  unfolding setup_cgroup
  setup_cgroup-IsBounded name limit w v dir e =
      subst (Bounded limit) e (found_cgroup-Bounded name limit (h.own_cgroup w) w)

  found_cgroup-none :
      (name dir : Bytes) (r : Result h.Fault Bytes) (w : h.World)
      → (found_cgroup h name none r w).0 ≡ ok dir
      → ⊥
  unfolding found_cgroup limited
  found_cgroup-none name dir (err e) w f = absurd (cc f)
  found_cgroup-none name dir (ok text) w f =
      elim (Bool-cases (has_suffix (unified [] (split text b'\n')) (service_suffix name))) [
        | inl yes' ↦ absurd (cc (f, yes'))
        | inr no' ↦ absurd (cc (f, no'))
      ]

  -- Without a limit there is no cgroup.
  pub setup_cgroup-none : (name dir : Bytes) (w : h.World) → (setup_cgroup h name none w).0 ≢ ok dir
  unfolding setup_cgroup
  setup_cgroup-none name dir w = found_cgroup-none name dir (h.own_cgroup w) w
