-- ===== src/Tester/Guests.antt =====
-- `cmdDestroy`, `cmdIRQAffinity`, the end of `cmdRun` and `cmdMconsole` of
-- tools/cmd/invirtio-test/devices.go, behind their flags.
pub mod Laws
mod Tests
use vkage.Base.{
  ℕ, zero, suc, ◌+◌, Bool, true, false, not, ◌&&◌, ◌||◌, List, [], ◌∷◌, ◌++◌, Option, none, some,
  Bytes, codes, str_eq, split, cut_prefix, length, if◌then◌else◌, ◌==◌,
}
use vkage.Pci.Address.{contains}
use vkage.Report.Memory.{fields, trim_colon}
use vkage.Vdpa.{VdpaHost, VdpaError, destroy}

pub data DestroyError (Fault : Type 0) : Type 0 where
  no_device on_bus : DestroyError Fault
  destroy_failed : VdpaError Fault → DestroyError Fault

destroyed :
    {Fault World : Type 0} → Option (VdpaError Fault) × World → Option (DestroyError Fault) × World
destroyed (none, w) = (none, w)
destroyed (some e, w) = (some (destroy_failed e), w)

-- `cmdDestroy`, as root.
unfoldable pub cmd_destroy : (h : VdpaHost) → h.World → Option (DestroyError h.Fault) × h.World
unfolding destroyed
cmd_destroy h w =
    if h.exists w
    then if h.attached w then (some on_bus, w) else destroyed (destroy h w)
    else (some no_device, w)

after_x : Bytes → Bool
unfolding cut_prefix
after_x s = elim (cut_prefix s (codes "[")) [ none ↦ false | some r ↦ true ]

x_or_not : Bytes → Bool
unfolding after_x
x_or_not [] = false
x_or_not (b ∷ s) = if b == b'x' then after_x s else after_x (b ∷ s)

-- Whether a name begins as `vfioIRQRE` says.
is_vfio : Bytes → Bool
unfolding x_or_not cut_prefix
is_vfio s = elim (cut_prefix s (codes "vfio-msi")) [ none ↦ false | some r ↦ x_or_not r ]

last_of : Bytes → List Bytes → Bytes
last_of f [] = f
last_of f (g ∷ gs) = last_of g gs

-- The interrupt of a line's fields, if it is the device's.
line_irq : Bytes → List Bytes → Option Bytes
unfolding is_vfio last_of contains trim_colon
line_irq addr [] = none
line_irq addr (f ∷ []) = none
line_irq addr (f ∷ g ∷ gs) =
    if is_vfio (last_of g gs) && contains (last_of g gs) (b'(' ∷ (addr ++ codes ")"))
    then some (trim_colon f)
    else none

with_irq : Option Bytes → List Bytes → List Bytes
with_irq none irqs = irqs
with_irq (some irq) irqs = irq ∷ irqs

line_irqs : Bytes → List Bytes → List Bytes
unfolding line_irq with_irq fields
line_irqs addr [] = []
line_irqs addr (l ∷ ls) = with_irq (line_irq addr (fields l)) (line_irqs addr ls)

-- `vfioIRQs`, of what /proc/interrupts holds.
unfoldable pub vfio_irqs : Bytes → Bytes → List Bytes
unfolding line_irqs
vfio_irqs addr text = line_irqs addr (split text b'\n')

-- The files of the interrupts: `read` is `sysfs.Read`, and a write says whether it had no error.
pub record AffinityHost : Type 1 where
  pub World : Type 0
  pub interrupts : World → Bytes
  pub read : Bytes → World → Option Bytes
  pub write : Bytes → Bytes → World → Bool × World

abbrev pub affinity_path : Bytes → Bytes
affinity_path irq = codes "/proc/irq/" ++ (irq ++ codes "/smp_affinity_list")

module _ (h : AffinityHost) where
  -- What the kernel prints becomes the target.
  reread : Bytes → Option Bytes → Bytes
  reread target none = target
  reread target (some cur) = cur

  written : Bytes → Bytes → Bool × h.World → Bytes × h.World
  unfolding reread
  written p target (done, w) = if done then (reread target (h.read p w), w) else (target, w)

  set_one : Bytes → Bytes → Bytes → Option Bytes → h.World → Bytes × h.World
  unfolding written
  set_one cpus p target none w = (target, w)
  set_one cpus p target (some cur) w =
      if str_eq cur target then (target, w) else written p target (h.write p cpus w)

  -- The loop of `apply` over the interrupts, with the target so far.
  unfoldable pub apply_irqs : Bytes → List Bytes → Bytes → h.World → Bytes × h.World
  unfolding set_one
  apply_irqs cpus [] target w = (target, w)
  apply_irqs cpus (irq ∷ irqs) target w =
      let (next, v) = set_one cpus (affinity_path irq) target (h.read (affinity_path irq) w) w in
      apply_irqs cpus irqs next v

  -- `apply`: how many interrupts there are, and the target then.
  unfoldable pub apply : Bytes → Bytes → Bytes → h.World → ℕ × (Bytes × h.World)
  unfolding apply_irqs vfio_irqs
  apply addr cpus target w =
      let irqs = vfio_irqs addr (h.interrupts w) in (length irqs, apply_irqs cpus irqs target w)

-- How a guest's process ended; another error of waiting for it is the command's own.
pub data GuestEnd : Type 0 where
  no_error : GuestEnd
  exited signaled : ℕ → GuestEnd

-- The exit status that `cmdRun` passes on, as a shell gives it.
unfoldable pub run_status : GuestEnd → ℕ
run_status no_error = 0
run_status (exited code) = code
run_status (signaled sig) = 128 + sig

-- The path that `cmdMconsole` connects to, and the reply as it prints it.
unfoldable pub console_path : Bytes → Bytes → Bytes
unfolding contains
console_path home path =
    if contains path (codes "/")
    then path
    else home ++ (codes "/.uml/" ++ (path ++ codes "/mconsole"))

trim_newlines : Bytes → Bytes
trim_newlines [] = []
trim_newlines (b ∷ s) = let rest = trim_newlines s in if b == b'\n' then rest else b ∷ s

-- A text that is not empty ends its last line.
end_line : ℕ → Bytes → Bytes
end_line b [] = if b == b'\n' then b ∷ [] else b ∷ b'\n' ∷ []
end_line b (c ∷ s) = b ∷ end_line c s

ended : Bytes → Bytes
unfolding end_line
ended [] = []
ended (b ∷ s) = end_line b s

unfoldable pub reply_text : Bytes → Bytes
unfolding trim_newlines ended
reply_text text = ended (trim_newlines text)
