-- ===== src/Harness/Launch/Laws.antt =====
-- The process that is found is a UML below the launcher, and following parents ends.
use vkage.Base.{
  ℕ, zero, suc, ◌<◌, ◌≡◌, refl, sym, ◌∙◌, ap, ◌⊎◌, inl, inr, Bool, true, false, not, ◌&&◌, List, [],
  ◌∷◌, Option, none, some, Bytes, ltb, ◌==◌, if◌then◌else◌, Bool-cases, All, arith,
}
use mathlib.Core.Path.{subst}
use vkage.Report.Memory.{parse_int}
use vkage.Harness.Launch.{below_from, is_guest, pid_next, uml_pid}

some_eq : {i j : ℕ} → Path (Option ℕ) (some i) (some j) → i ≡ j
some_eq {i} {j} e = ap (number i) e
  where
    number : ℕ → Option ℕ → ℕ
    number d none = d
    number d (some n) = n

either : (b : Bool) → (if b then true else true) ≡ true
either true = refl
either false = refl

not-true : (b : Bool) → not b ≡ true → b ≡ false
not-true true h = absurd (cc h)
not-true false h = refl

positive : (n : ℕ) → 1 < n → ltb 0 n ≡ true
positive n h = ground arith

module _ (parent : ℕ → ℕ) (is_uml : ℕ → Bool) where
  -- A process that is the launcher, or whose parents lead to it.
  pub data Leads (launcher : ℕ) : ℕ → Type 0 where
    itself : 1 < launcher → Leads launcher launcher
    through : (p : ℕ) → 1 < p → Leads launcher (parent p) → Leads launcher p

  below-Leads :
      (rounds launcher p : ℕ) → below_from parent is_uml rounds launcher p ≡ true → Leads launcher p
  unfolding below_from
  below-Leads zero launcher p h = absurd (cc h)
  below-Leads (suc rounds) launcher p h = elim (Bool-cases (ltb 1 p)) [
    | inr top ↦ absurd (cc (rw top at h))
    | inl child ↦ elim (Bool-cases (p == launcher)) [
      | inl same ↦
          let e : p ≡ launcher = ground arith in
          subst (Leads launcher) (sym e) (itself (ground arith))
      | inr other ↦
          through p (ground arith) (below-Leads rounds launcher (parent p) (rw (child, other) at h))
    ]
  ]

  -- Where parents come before their children in an order, rounds beyond a process's place in it are
  -- enough to find the launcher above it.
  Leads-below :
      (rank : ℕ → ℕ) (rounds launcher p : ℕ)
      → ((q : ℕ) → 1 < q → rank (parent q) < rank q)
      → Leads launcher p
      → rank p < rounds
      → below_from parent is_uml rounds launcher p ≡ true
  unfolding below_from
  Leads-below rank zero launcher p ordered leads l = absurd (omega arith)
  Leads-below rank (suc rounds) launcher _ ordered (itself h) l =
      let child : ltb 1 launcher ≡ true = ground arith in
      let same : (launcher == launcher) ≡ true = ground arith in rw (child, same) refl
  Leads-below rank (suc rounds) launcher _ ordered (through p h leads) l =
      let child : ltb 1 p ≡ true = ground arith in
      let up =
        Leads-below rank rounds launcher (parent p) ordered leads (omega (arith, ordered p h)) in
      rw (child, up) (either (p == launcher))

  Leads-child : (launcher p : ℕ) → Leads launcher p → 1 < p
  Leads-child launcher _ (itself h) = h
  Leads-child launcher _ (through p h leads) = h

  -- A guest that the launcher started: UML below the launcher, of which the parent is not UML.
  pub record IsGuest (launcher pid : ℕ) : Type 0 where
    pub uml : is_uml pid ≡ true
    pub leads : Leads launcher (parent pid)
    pub first : is_uml (parent pid) ≡ false

  and_true : (a b : Bool) → a && b ≡ true → (a ≡ true) × (b ≡ true)
  and_true true true h = (refl, refl)
  and_true true false h = absurd (cc h)
  and_true false b h = absurd (cc h)

  guest-IsGuest :
      (rounds launcher pid : ℕ)
      → is_guest parent is_uml rounds launcher pid ≡ true
      → IsGuest launcher pid
  unfolding is_guest
  guest-IsGuest rounds launcher pid h =
      let below = below_from parent is_uml rounds launcher (parent pid) in
      let child = ltb 0 (parent pid) in
      let other = not (is_uml (parent pid)) in
      let (h1, n) = and_true (is_uml pid && below && child) other h in
      let (h2, g) = and_true (is_uml pid && below) child h1 in
      let (u, b) = and_true (is_uml pid) below h2 in
      record {
        uml = u;
        leads = below-Leads rounds launcher (parent pid) b;
        first = not-true (is_uml (parent pid)) n;
      }

  IsGuest-guest :
      (rank : ℕ → ℕ) (rounds launcher pid : ℕ)
      → ((q : ℕ) → 1 < q → rank (parent q) < rank q)
      → IsGuest launcher pid
      → rank (parent pid) < rounds
      → is_guest parent is_uml rounds launcher pid ≡ true
  unfolding is_guest
  IsGuest-guest rank rounds launcher pid ordered g l =
      let below = Leads-below rank rounds launcher (parent pid) ordered g.leads l in
      let child : ltb 0 (parent pid) ≡ true =
        positive (parent pid) (Leads-child launcher (parent pid) g.leads) in
      rw (g.uml, below, child, g.first) refl

  -- Which of the listed processes is found.
  Found : ℕ → ℕ → List Bytes → ℕ → Type 0
  Found rounds launcher names r =
      (is_guest parent is_uml rounds launcher r ≡ true)
      ⊎ ((r ≡ 0)
          × All
              (λ name.
                (pid : ℕ)
                → parse_int name ≡ some pid
                → is_guest parent is_uml rounds launcher pid ≡ false)
              names)

  next-Found :
      (rounds launcher : ℕ) (name : Bytes) (names : List Bytes) (o : Option ℕ) (later : ℕ)
      → parse_int name ≡ o
      → Found rounds launcher names later
      → Found rounds launcher (name ∷ names) (pid_next parent is_uml rounds launcher o later)
  unfolding pid_next Found
  next-Found rounds launcher name names none later e (inl g) = inl g
  next-Found rounds launcher name names none later e (inr (z, h)) =
      inr (z, (λ pid f. absurd (cc (e, f)), h))
  next-Found rounds launcher name names (some pid) later e found =
      elim (Bool-cases (is_guest parent is_uml rounds launcher pid)) [
        | inl g ↦ rw g (inl g)
        | inr n ↦ rw n (
            pass found (λ q f.
              subst (λ x. is_guest parent is_uml rounds launcher x ≡ false) (some_eq (sym e ∙ f))
                n))
      ]
    where
      pass :
          Found rounds launcher names later
          → ((q : ℕ) → parse_int name ≡ some q → is_guest parent is_uml rounds launcher q ≡ false)
          → Found rounds launcher (name ∷ names) later
      pass (inl g) k = inl g
      pass (inr (z, h)) k = inr (z, (k, h))

  uml_pid-Found :
      (rounds launcher : ℕ) (names : List Bytes)
      → Found rounds launcher names (uml_pid parent is_uml rounds launcher names)
  unfolding uml_pid Found
  uml_pid-Found rounds launcher [] = inr (refl, tt)
  uml_pid-Found rounds launcher (name ∷ names) =
      next-Found rounds launcher name names (parse_int name)
        (uml_pid parent is_uml rounds launcher names) refl (uml_pid-Found rounds launcher names)

  no_guests :
      (rank : ℕ → ℕ) (rounds launcher : ℕ) (names : List Bytes)
      → ((q : ℕ) → 1 < q → rank (parent q) < rank q)
      → ((q : ℕ) → rank q < rounds)
      → All
          (λ name.
            (pid : ℕ)
            → parse_int name ≡ some pid
            → is_guest parent is_uml rounds launcher pid ≡ false)
          names
      → All (λ name. (pid : ℕ) → parse_int name ≡ some pid → IsGuest launcher pid → ⊥) names
  no_guests rank rounds launcher [] ordered enough h = tt
  no_guests rank rounds launcher (name ∷ names) ordered enough (k, h) = (
    λ pid e g.
        absurd
          (cc (k pid e, IsGuest-guest rank rounds launcher pid ordered g (enough (parent pid)))),
    no_guests rank rounds launcher names ordered enough h,
  )

  -- Where parents come before their children in an order, and the rounds are beyond every place in it:
  -- the process that is found is a guest that the launcher started, and if 0 is returned, no listed
  -- process is one.
  pub uml_pid_found :
      (rank : ℕ → ℕ) (rounds launcher : ℕ) (names : List Bytes)
      → ((q : ℕ) → 1 < q → rank (parent q) < rank q)
      → ((q : ℕ) → rank q < rounds)
      → IsGuest launcher (uml_pid parent is_uml rounds launcher names)
        ⊎ ((uml_pid parent is_uml rounds launcher names ≡ 0)
            × All (λ name. (pid : ℕ) → parse_int name ≡ some pid → IsGuest launcher pid → ⊥) names)
  unfolding Found
  uml_pid_found rank rounds launcher names ordered enough =
      either_found (uml_pid-Found rounds launcher names)
    where
      either_found :
          Found rounds launcher names (uml_pid parent is_uml rounds launcher names)
          → IsGuest launcher (uml_pid parent is_uml rounds launcher names)
            ⊎ ((uml_pid parent is_uml rounds launcher names ≡ 0)
                × All
                    (λ name. (pid : ℕ) → parse_int name ≡ some pid → IsGuest launcher pid → ⊥)
                    names)
      either_found (inl g) =
          inl (guest-IsGuest rounds launcher (uml_pid parent is_uml rounds launcher names) g)
      either_found (inr (z, h)) = inr (z, no_guests rank rounds launcher names ordered enough h)
