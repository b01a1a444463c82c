-- ===== src/Tester/Guests/Laws.antt =====
-- Steering a device's interrupts settles, and destroying a device that a guest left.
use vkage.Base.{
  ◌≡◌, ◌≢◌, refl, sym, ◌∙◌, ap, ◌⊎◌, inl, inr, true, false, List, [], ◌∷◌, Option, none, some,
  Bytes, str_eq, str_eq_iff, All, Bool-cases, length,
}
use mathlib.Core.Path.{subst}
use vkage.Vdpa.{VdpaHost, VdpaError, destroy}
use vkage.Vdpa.Laws.{VdpaLaws, destroy_gone}
use vkage.Tester.Guests.{
  destroyed, cmd_destroy, vfio_irqs, AffinityHost, affinity_path, reread, written, set_one,
  apply_irqs, apply,
}

-- What the kernel documents of /proc/irq/<irq>/smp_affinity_list: what is written of the CPUs without
-- an error is read back in the kernel's form of them, in which alone it prints a list; a write that is
-- refused leaves the file; and a write changes no other interrupt's file and not which interrupts there
-- are.
pub record AffinityLaws (h : AffinityHost) (cpus canon : Bytes) : Type 0 where
  pub read_back :
      (irq : Bytes) (w : h.World)
      → (h.write (affinity_path irq) cpus w).0 ≡ true
      → h.read (affinity_path irq) (h.write (affinity_path irq) cpus w).1 ≡ some canon
  pub refusal :
      (irq : Bytes) (w : h.World)
      → (h.write (affinity_path irq) cpus w).0 ≡ false
      → h.read (affinity_path irq) (h.write (affinity_path irq) cpus w).1
        ≡ h.read (affinity_path irq) w
  pub elsewhere :
      (irq other : Bytes) (w : h.World)
      → affinity_path other ≢ affinity_path irq
      → h.read (affinity_path other) (h.write (affinity_path irq) cpus w).1
        ≡ h.read (affinity_path other) w
  pub canonical :
      (irq : Bytes) (w : h.World) → h.read (affinity_path irq) w ≡ some cpus → cpus ≡ canon
  pub same_interrupts :
      (irq : Bytes) (w : h.World)
      → h.interrupts (h.write (affinity_path irq) cpus w).1 ≡ h.interrupts w

module _ (h : AffinityHost) (cpus : Bytes) where
  -- The worlds that writes of the CPUs to interrupts' files lead to.
  pub data Wrote (start : h.World) : h.World → Type 0 where
    nothing : Wrote start start
    one :
        {w : h.World} (irq : Bytes)
        → Wrote start w
        → Wrote start (h.write (affinity_path irq) cpus w).1

  -- On the way the interrupt's file could not be read, or refused the write.
  abbrev pub Missed : h.World → Bytes → Type 0
  Missed start irq =
      (w : h.World) × Wrote start w
      × ((h.read (affinity_path irq) w ≡ none) ⊎ ((h.write (affinity_path irq) cpus w).0 ≡ false))

module _ (h : AffinityHost) (cpus canon : Bytes) (laws : AffinityLaws h cpus canon)
    (start : h.World) where
  -- The target is what was asked for, or the kernel's form of it.
  abbrev IsTarget : Bytes → Type 0
  IsTarget t = (t ≡ cpus) ⊎ (t ≡ canon)

  abbrev Steered : Bytes → h.World → Type 0
  Steered irq w = (h.read (affinity_path irq) w ≡ some canon) ⊎ Missed h cpus start irq

  write-read :
      (irq other : Bytes) (w : h.World)
      → h.read (affinity_path other) w ≡ some canon
      → h.read (affinity_path other) (h.write (affinity_path irq) cpus w).1 ≡ some canon
  write-read irq other w s = elim (Bool-cases (str_eq (affinity_path other) (affinity_path irq))) [
    | inl same ↦
        let e = (str_eq_iff (affinity_path other) (affinity_path irq)).0 same in
        subst (λ p. h.read p (h.write (affinity_path irq) cpus w).1 ≡ some canon) (sym e)
          (elim (Bool-cases (h.write (affinity_path irq) cpus w).0) [
            | inl done ↦ laws.read_back irq w done
            | inr failed ↦ laws.refusal irq w failed ∙ subst (λ p. h.read p w ≡ some canon) e s
          ])
    | inr apart ↦
        laws.elsewhere irq other w
          (λ e. absurd (cc ((str_eq_iff (affinity_path other) (affinity_path irq)).1 e, apart)))
        ∙ s
  ]

  write-Steered :
      (irq other : Bytes) (w : h.World)
      → Steered other w
      → Steered other (h.write (affinity_path irq) cpus w).1
  write-Steered irq other w (inl s) = inl (write-read irq other w s)
  write-Steered irq other w (inr m) = inr m

  -- A step's outcome: the interrupt that it is about is steered, those that were stay so, and the target
  -- is one.
  record Steers (irq : Bytes) (w : h.World) (r : Bytes × h.World) : Type 0 where
    pub target : IsTarget r.0
    pub here : Steered irq r.1
    pub others : (q : Bytes) → Steered q w → Steered q r.1
    pub interrupts : h.interrupts r.1 ≡ h.interrupts w
    pub on_way : Wrote h cpus start r.1

  written-Steers :
      (irq target : Bytes) (w : h.World)
      → IsTarget target
      → Wrote h cpus start w
      → Steers irq w (written h (affinity_path irq) target (h.write (affinity_path irq) cpus w))
  unfolding written reread
  written-Steers irq target w t way = elim (Bool-cases (h.write (affinity_path irq) cpus w).0) [
    | inl done ↦
        rw (done, laws.read_back irq w done)
          record {
            target = inr refl;
            here = inl (laws.read_back irq w done);
            others = λ q s. write-Steered irq q w s;
            interrupts = laws.same_interrupts irq w;
            on_way = one irq way;
          }
    | inr failed ↦ rw failed record {
      target = t;
      here = inr (w, way, inr failed);
      others = λ q s. write-Steered irq q w s;
      interrupts = laws.same_interrupts irq w;
      on_way = one irq way;
    }
  ]

  found_one :
      (irq target cur : Bytes) (w : h.World)
      → IsTarget target
      → Wrote h cpus start w
      → h.read (affinity_path irq) w ≡ some cur
      → Steers irq w (set_one h cpus (affinity_path irq) target (some cur) w)
  unfolding set_one
  found_one irq target cur w t way e = elim (Bool-cases (str_eq cur target)) [
    | inr other ↦ rw other (written-Steers irq target w t way)
    | inl same ↦ rw same record {
      target = t;
      here = inl (e ∙ ap some (canon_of ((str_eq_iff cur target).0 same) t));
      others = λ q s. s;
      interrupts = refl;
      on_way = way;
    }
  ]
    where
      canon_of : cur ≡ target → IsTarget target → cur ≡ canon
      canon_of f (inl g) = f ∙ g ∙ laws.canonical irq w (e ∙ ap some (f ∙ g))
      canon_of f (inr g) = f ∙ g

  set_one-Steers :
      (irq target : Bytes) (w : h.World) (cur : Option Bytes)
      → IsTarget target
      → Wrote h cpus start w
      → h.read (affinity_path irq) w ≡ cur
      → Steers irq w (set_one h cpus (affinity_path irq) target cur w)
  set_one-Steers irq target w (some cur) t way e = found_one irq target cur w t way e
  set_one-Steers irq target w none t way e =
      unfold set_one in
      record {
        target = t;
        here = inr (w, way, inl e);
        others = λ q s. s;
        interrupts = refl;
        on_way = way;
      }

  record Settles (irqs : List Bytes) (w : h.World) (r : Bytes × h.World) : Type 0 where
    pub all : All (λ irq. Steered irq r.1) irqs
    pub others : (q : Bytes) → Steered q w → Steered q r.1
    pub interrupts : h.interrupts r.1 ≡ h.interrupts w

  apply_irqs-Settles :
      (irqs : List Bytes) (target : Bytes) (w : h.World)
      → IsTarget target
      → Wrote h cpus start w
      → Settles irqs w (apply_irqs h cpus irqs target w)
  unfolding apply_irqs
  apply_irqs-Settles [] target w t way = record { all = tt; others = λ q s. s; interrupts = refl }
  apply_irqs-Settles (irq ∷ irqs) target w t way =
      let p = affinity_path irq in
      let step = set_one-Steers irq target w (h.read p w) t way refl in
      let next = set_one h cpus p target (h.read p w) w in
      let rest = apply_irqs-Settles irqs next.0 next.1 step.target step.on_way in
      record {
        all = (rest.others irq step.here, rest.all);
        others = λ q s. rest.others q (step.others q s);
        interrupts = rest.interrupts ∙ step.interrupts;
      }

-- Where the interrupts' files behave as the kernel documents: after one pass every interrupt of the
-- device reads as the wanted CPUs in the kernel's form, whatever it had before, but for those whose
-- file could not be read or refused the write on the way.
pub apply_settles :
    (h : AffinityHost) (cpus canon : Bytes)
    → AffinityLaws h cpus canon
    → (addr : Bytes) (w : h.World)
    → All
        (λ irq.
          (h.read (affinity_path irq) (apply h addr cpus cpus w).1.1 ≡ some canon)
          ⊎ Missed h cpus w irq)
        (vfio_irqs addr (h.interrupts (apply h addr cpus cpus w).1.1))
unfolding apply
apply_settles h cpus canon laws addr w =
    let s =
      apply_irqs-Settles h cpus canon laws w (vfio_irqs addr (h.interrupts w)) cpus w (inl refl)
        nothing in
    rw s.interrupts s.all

module _ (h : AffinityHost) (cpus target : Bytes) where
  apply_irqs_rests :
      (irqs : List Bytes) (w : h.World)
      → All (λ irq. h.read (affinity_path irq) w ≡ some target) irqs
      → apply_irqs h cpus irqs target w ≡ (target, w)
  unfolding apply_irqs set_one
  apply_irqs_rests [] w s = refl
  apply_irqs_rests (irq ∷ irqs) w (e, s) =
      let same : str_eq target target ≡ true = (str_eq_iff target target).1 refl in
      rw (e, same) (apply_irqs_rests irqs w s)

  -- Where all interrupts of the device read as the target, a pass counts them and writes nothing.
  pub apply_rests :
      (addr : Bytes) (w : h.World)
      → All (λ irq. h.read (affinity_path irq) w ≡ some target) (vfio_irqs addr (h.interrupts w))
      → apply h addr cpus target w ≡ (length (vfio_irqs addr (h.interrupts w)), (target, w))
  unfolding apply
  apply_rests addr w s = rw (apply_irqs_rests (vfio_irqs addr (h.interrupts w)) w s) refl

module _ (h : VdpaHost) (laws : VdpaLaws h) where
  destroyed_ok :
      (r : Option (VdpaError h.Fault) × h.World)
      → (destroyed r).0 ≡ none
      → (r.0 ≡ none) × ((destroyed r).1 ≡ r.1)
  unfolding destroyed
  destroyed_ok (none, w) f = (refl, refl)
  destroyed_ok (some e, w) f = absurd (cc f)

  -- Where `destroy` reports no error, the device was there and off the bus, and is gone.
  pub cmd_destroy_gone :
      (w : h.World)
      → (cmd_destroy h w).0 ≡ none
      → (h.exists w ≡ true) × (h.attached w ≡ false) × (h.exists (cmd_destroy h w).1 ≡ false)
  unfolding cmd_destroy
  cmd_destroy_gone w f = elim (Bool-cases (h.exists w)) [
    | inr gone ↦ absurd (cc (rw gone at f))
    | inl there ↦ elim (Bool-cases (h.attached w)) [
      | inl on ↦ absurd (cc (rw (there, on) at f))
      | inr off ↦
          let (ok, same) = destroyed_ok (destroy h w) (rw (there, off) at f) in
          rw (there, off) (refl, refl, ap h.exists same ∙ (destroy_gone h laws w off ok).0)
    ]
  ]
