-- ===== src/Tester/Guests/Tests.antt =====
-- Runs of irq-affinity, and an instance of its theorem.
use vkage.Base.{
  ℕ, ◌≡◌, refl, ap, inl, inr, true, false, [], ◌∷◌, Option, none, some, Bytes, codes, str_eq,
  if◌then◌else◌, split, cut_prefix, has_prefix, arith, Bool, All, Bool-cases, str_eq_iff, get_or,
  ◌⊎◌,
}
use vkage.Utf8.{runes, decode_rune}
use vkage.Pci.Address.{contains}
use vkage.Report.Memory.{fields, trim_colon}
use vkage.Tester.Guests.{
  AffinityHost, affinity_path, apply, vfio_irqs, run_status, exited, signaled, reply_text,
  console_path,
}
use vkage.Tester.Guests.Laws.{AffinityLaws, Missed, apply_settles}

abbrev addr : Bytes
addr = codes "0000:01:00.0"

-- Two interrupts, of which the kernel prints the CPUs 4 and 5 as 4-5; the world is the first's and the
-- second's.
abbrev lines : Bytes
lines =
    codes " 31: 0 0 vfio-msix[0](0000:01:00.0)\n 32: 0 0 vfio-msi[0](0000:01:00.0)\n 33: 0 0 eth0\n"

found_irqs : vfio_irqs addr lines ≡ codes "31" ∷ codes "32" ∷ []
unfolding vfio_irqs fields runes decode_rune trim_colon split contains cut_prefix has_prefix
found_irqs = refl

-- Each file's text, with the kernel's form in place of all.
abbrev affinity : AffinityHost
affinity = record {
  World = Bytes → Bool;
  interrupts = λ w. lines;
  read = λ p w. some (if w p then codes "4-5" else codes "0-7");
  write = λ p text w. (true, λ q. if str_eq q p then true else w q);
}

second : Option Bytes → ℕ
second none = 0
second (some s) = get_or s 1 0

first_byte : Option Bytes → ℕ
first_byte none = 0
first_byte (some s) = get_or s 0 0

differ :
    (b : Bool) (t : Bytes)
    → Path (Option Bytes) (some (if b then codes "4-5" else codes "0-7")) (some (codes "4,5"))
    → t ≡ codes "4-5"
unfolding second first_byte
differ true t e = absurd (ground (arith, ap second e))
differ false t e = absurd (ground (arith, ap first_byte e))

affinity_laws : AffinityLaws affinity (codes "4,5") (codes "4-5")
affinity_laws = record {
  read_back = λ irq w done. rw ((str_eq_iff (affinity_path irq) (affinity_path irq)).1 refl) refl;
  refusal = λ irq w failed. absurd (cc failed);
  elsewhere = λ irq other w ne.
      elim (Bool-cases (str_eq (affinity_path other) (affinity_path irq))) [
        | inl same ↦ absurd (ne ((str_eq_iff (affinity_path other) (affinity_path irq)).0 same))
        | inr apart ↦ rw apart refl
      ];
  canonical = λ irq w e. differ (w (affinity_path irq)) (codes "4,5") e;
  same_interrupts = λ p w. refl;
}

apply_settles_example :
    All
      (λ irq.
        (affinity.read
            (affinity_path irq)
            (apply affinity addr (codes "4,5") (codes "4,5") (λ p. false)).1.1
          ≡ some (codes "4-5"))
        ⊎ Missed affinity (codes "4,5") (λ p. false) irq)
      (vfio_irqs addr
        (affinity.interrupts (apply affinity addr (codes "4,5") (codes "4,5") (λ p. false)).1.1))
apply_settles_example =
    apply_settles affinity (codes "4,5") (codes "4-5") affinity_laws addr (λ p. false)

statuses :
    (run_status (exited 3) ≡ 3)
    × (run_status (signaled 9) ≡ 137)
    × (reply_text (codes "\nOK") ≡ codes "OK\n")
    × (console_path (codes "/root") (codes "vm") ≡ codes "/root/.uml/vm/mconsole")
unfolding run_status reply_text console_path contains has_prefix cut_prefix
statuses = (refl, refl, refl, refl)
