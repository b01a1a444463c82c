-- ===== src/Harness/Guest/Tests.antt =====
-- A guest's console, its memory, its process and its command line.
use vkage.Base.{
  ℕ, ◌<◌, ◌≡◌, refl, ◌⊎◌, Bool, true, List, [], ◌∷◌, ◌++◌, some, Bytes, codes, decimal, has_prefix,
  cut_prefix, split, scan_digits, str_eq, leb, ltb, ◌==◌, if◌then◌else◌, All, arith,
}
use Prim.Native.Nat.{max}
use vkage.Utf8.{runes, decode_rune}
use vkage.Report.Memory.{parse_int, keyed, parse_keyed, fields, trim_colon}
use vkage.Harness.Counters.{parse_counters, span}
use vkage.Harness.Guest.{GuestHost, output, index, split_mark, input_line, without_cr, slice}
use vkage.Harness.Guest.Laws.{output_total}
use vkage.Harness.Memory.{GuestMemory}
use vkage.Harness.Memory.Laws.{IsSample, sample_all, most_used, sample_all_peak}
use vkage.Harness.Launch.{below_from, is_guest, uml_pid}
use vkage.Harness.Launch.Laws.{IsGuest, uml_pid_found}

-- A console that echoes the input and shows what the command prints; the world is the log.
abbrev console : GuestHost
console = record {
  World = Bytes;
  send = λ line w. (true, w ++ (line ++ codes "mark-1-start\r\nok\r\nmark-1-end\r\n"));
  wait_for = λ text w. (true, w);
  log = λ w. w;
}

echoed : (output console 1 (codes "true") (codes "boot\n")).0 ≡ some (codes "\nok\n")
unfolding output input_line split_mark index has_prefix cut_prefix decimal slice without_cr
echoed = refl

output_total_example :
    (out : Bytes) × ((output console 1 (codes "true") (codes "boot\n")).0 ≡ some out)
output_total_example = output_total console 1 (codes "true") (codes "boot\n")

abbrev fresh : GuestMemory
fresh = record {
  mem = codes "64M";
  peak = 0;
  current = 0;
  anon = 0;
  file = 0;
  shmem = 0;
  kernel = 0;
  guest_total = 0;
  guest_peak_used = 0;
}

abbrev samples : List Bytes
samples =
    codes "MemTotal: 100 kB\nMemAvailable: 40 kB\n"
    ∷ codes "MemTotal: 100 kB\nMemAvailable: 90 kB\n"
    ∷ []

samples_fit : All IsSample samples
unfolding keyed parse_keyed fields runes decode_rune trim_colon parse_int scan_digits split str_eq
samples_fit = ((omega arith, omega arith), ((omega arith, omega arith), tt))

sample_all_peak_example : (sample_all samples fresh).guest_peak_used ≡ max 0 (most_used samples)
sample_all_peak_example = sample_all_peak samples fresh samples_fit (omega arith)

-- A launcher, 50, with its UML, 100, and a helper of that, 101.
abbrev parents : ℕ → ℕ
parents q = if q == 101 then 100 else if q == 100 then 50 else 1

abbrev places : ℕ → ℕ
places q = if q == 101 then 3 else if q == 100 then 2 else if ltb 1 q then 1 else 0

abbrev umls : ℕ → Bool
umls q = leb 100 q

parents_first : (q : ℕ) → 1 < q → places (parents q) < places q
parents_first q h = ground arith

few_places : (q : ℕ) → places q < 4
few_places q = ground arith

abbrev names : List Bytes
names = codes "1" ∷ codes "101" ∷ codes "50" ∷ codes "100" ∷ []

found_uml : uml_pid parents umls 4 50 names ≡ 100
unfolding uml_pid is_guest below_from parse_int scan_digits
found_uml = refl

uml_pid_found_example :
    IsGuest parents umls 50 (uml_pid parents umls 4 50 names)
    ⊎ ((uml_pid parents umls 4 50 names ≡ 0)
        × All
            (λ name. (pid : ℕ) → parse_int name ≡ some pid → IsGuest parents umls 50 pid → ⊥)
            names)
uml_pid_found_example = uml_pid_found parents umls places 4 50 names parents_first few_places

abbrev dump : Bytes
dump = codes "device vblk\n  starts 1\n  queue 0\n    kicks 10\n  queue 1\n    kicks -5\n"

dump_counters :
    (keyed (codes "starts") (parse_counters dump) ≡ 1)
    × (keyed (codes "q0_kicks") (parse_counters dump) ≡ 10)
    × (keyed (codes "q1_kicks") (parse_counters dump) ≡ 0xfffffffffffffffb)
    × (keyed (codes "kicks") (parse_counters dump) ≡ 0)
unfolding parse_counters cut_prefix parse_int scan_digits keyed split str_eq span
dump_counters = (refl, refl, refl, refl)
