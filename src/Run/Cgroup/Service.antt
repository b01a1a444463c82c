-- ===== src/Run/Cgroup/Service.antt =====
-- Which process has a cgroup of its service: what `setupCgroup` reads where it says that it has none.
use vkage.Base.{
  ℕ, ◌-◌, ◌≡◌, refl, true, List, [], ◌∷◌, ◌++◌, Option, none, some, Bytes, codes, str_eq_iff, split,
  cut_prefix, length, drop, length-append, leb, arith, Result, ok, err, All, Bool-cases, inl, inr,
  ◌≢◌,
}
use vkage.Run.Cgroup.{
  PathError, not_there, already_there, denied, CgroupHost, Step, guest_dir, steps, service_dir,
  CgroupError, not_service, has_suffix, service_suffix, unified, limited, made, write_steps,
  step_next, found_cgroup, setup_cgroup,
}

-- The text of /proc/self/cgroup of a device's supervisor that its service started: the last line that
-- begins with "0::" ends in the supervisor's part of the service's cgroup.
pub record IsService (name text : Bytes) : Type 0 where
  pub before : List Bytes
  pub above : Bytes
  pub behind : List Bytes
  pub is_text :
      split text b'\n'
      ≡ before
        ++ (codes "0::" ++ (above ++ (codes "/invirtio@" ++ (name ++ codes ".service/supervisor"))))
          ∷ behind
  pub is_last : All (λ line. cut_prefix line (codes "0::") ≡ none) behind

drop_front : (s t : Bytes) → drop (length s) (s ++ t) ≡ t
drop_front [] t = refl
drop_front (b ∷ s) t = drop_front s t

has_suffix-append : (s t : Bytes) → has_suffix (s ++ t) t ≡ true
unfolding has_suffix
has_suffix-append s t =
    let fits : leb (length t) (length (s ++ t)) ≡ true = ground (arith, length-append s t) in
    let front : length (s ++ t) - length t ≡ length s = omega (arith, length-append s t) in
    rw (fits, front, drop_front s t) ((str_eq_iff t t).1 refl)

unified-none :
    (rel : Bytes) (ls : List Bytes)
    → All (λ line. cut_prefix line (codes "0::") ≡ none) ls
    → unified rel ls ≡ rel
unfolding unified
unified-none rel [] h = refl
unified-none rel (l ∷ ls) (e, h) = rw e (unified-none rel ls h)

unified_last :
    (before : List Bytes) (rel path : Bytes) (behind : List Bytes)
    → All (λ line. cut_prefix line (codes "0::") ≡ none) behind
    → unified rel (before ++ (codes "0::" ++ path) ∷ behind) ≡ path
unfolding unified cut_prefix
unified_last [] rel path behind h = unified-none path behind h
unified_last (l ∷ before) rel path behind h = unified_last before _ path behind h

service_found :
    (name text : Bytes)
    → IsService name text
    → has_suffix (unified [] (split text b'\n')) (service_suffix name) ≡ true
service_found name text s =
    rw (s.is_text, unified_last s.before [] (s.above ++ service_suffix name) s.behind s.is_last)
      (has_suffix-append s.above (service_suffix name))

module _ (h : CgroupHost) where
  Other : Result (CgroupError h.Fault) Bytes × h.World → Type 0
  Other o = o.0 ≢ err not_service

  step_next-Other :
      (s : Step) (r : Option (PathError h.Fault) × h.World)
      (next : h.World → Result (CgroupError h.Fault) Bytes × h.World)
      → ((w : h.World) → Other (next w))
      → Other (step_next h s r next)
  unfolding step_next Other
  step_next-Other s (none, w) next k = k w
  step_next-Other s (some not_there, w) next k = elim (Bool-cases s.optional) [
    | inl yes' ↦ rw yes' (k w)
    | inr no' ↦ rw no' (λ e. absurd (cc e))
  ]
  step_next-Other s (some already_there, w) next k = λ e. absurd (cc e)
  step_next-Other s (some (denied x), w) next k = λ e. absurd (cc e)

  write_steps-Other : (dir : Bytes) (ss : List Step) (w : h.World) → Other (write_steps h dir ss w)
  unfolding write_steps
  write_steps-Other dir [] w = unfold Other in λ e. absurd (cc e)
  write_steps-Other dir (s ∷ ss) w =
      step_next-Other s (h.write s.file s.value w) (write_steps h dir ss) (write_steps-Other dir ss)

  made-Other :
      (base : Bytes) (limit : ℕ) (r : Option (PathError h.Fault) × h.World)
      → Other (made h base limit r)
  unfolding made
  made-Other base limit (none, w) = write_steps-Other (guest_dir base) (steps base limit) w
  made-Other base limit (some already_there, w) =
      write_steps-Other (guest_dir base) (steps base limit) w
  made-Other base limit (some not_there, w) = unfold Other in λ e. absurd (cc e)
  made-Other base limit (some (denied x), w) = unfold Other in λ e. absurd (cc e)

  limited-Other : (base : Bytes) (limit : Option ℕ) (w : h.World) → Other (limited h base limit w)
  unfolding limited
  limited-Other base none w = unfold Other in λ e. absurd (cc e)
  limited-Other base (some limit) w = made-Other base limit (h.make_dir (guest_dir base) w)

  found_not_service :
      (name : Bytes) (limit : Option ℕ) (r : Result h.Fault Bytes) (w : h.World)
      → (found_cgroup h name limit r w).0 ≡ err not_service
      → (text : Bytes) × (r ≡ ok text) × (¬ IsService name text)
  unfolding found_cgroup Other
  found_not_service name limit (err x) w e = absurd (cc e)
  found_not_service name limit (ok text) w e =
      let rel = unified [] (split text b'\n') in
      elim (Bool-cases (has_suffix rel (service_suffix name))) [
        | inl yes' ↦ absurd (limited-Other (service_dir rel) limit w (rw yes' at e))
        | inr no' ↦ (text, refl, λ s. absurd (cc (service_found name text s, no')))
      ]

-- The error that the guest may run without a cgroup comes of a text in which this process is not in the
-- service's cgroup.
pub setup_not_service :
    (h : CgroupHost) (name : Bytes) (limit : Option ℕ) (w : h.World)
    → (setup_cgroup h name limit w).0 ≡ err not_service
    → (u : h.World) × (text : Bytes) × (h.own_cgroup u ≡ ok text) × (¬ IsService name text)
unfolding setup_cgroup
setup_not_service h name limit w e =
    let (text, is, out) = found_not_service h name limit (h.own_cgroup w) w e in (w, text, is, out)
