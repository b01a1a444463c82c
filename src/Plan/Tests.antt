-- ===== src/Plan/Tests.antt =====
-- Runs of the stages and of the quoting on inputs like those of invirtio_test.go, and instances of
-- their theorems.
use vkage.Host.Sample.{Files, sample, sample_laws}
use vkage.Plan.Actions.{tmp_of, write_run, copy_file, save_run}
use vkage.Plan.Actions.Atomic.{IsAtomic, write_run-IsAtomic, copy_file-IsAtomic, save_run-IsAtomic}
use vkage.Base.{
  arith, ◌≢◌, ap, length, str_eq, if◌then◌else◌, ℕ, ◌+◌, ◌≡◌, refl, true, false, [], ◌∷◌, List,
  none, some, codes, map,
}
use vkage.Plan.Stages.{Action, Stage, needs_terminal, failed, Console, run_stages, run_actions}
use mathlib.Core.List.{flatten}
use vkage.Plan.Stages.Run.{Runs, run_stages-yes, run_stages-dry, outcome}
use vkage.Plan.Quote.{show_cmd}
use vkage.Plan.Quote.Shell.{shell_words, shell_words-show_cmd}

quoted :
    show_cmd (codes "ip") (codes "a b" ∷ codes "it's" ∷ codes "" ∷ codes "eth0" ∷ [])
    ≡ codes "ip 'a b' 'it'\\''s' '' eth0"
unfolding show_cmd
quoted = refl

shell_words-show_cmd_example :
    shell_words (show_cmd (codes "ip") (codes "a b" ∷ codes "it's" ∷ codes "" ∷ codes "eth0" ∷ []))
    ≡ some (codes "ip" ∷ codes "a b" ∷ codes "it's" ∷ codes "" ∷ codes "eth0" ∷ [])
shell_words-show_cmd_example =
    shell_words-show_cmd (codes "ip") (codes "a b" ∷ codes "it's" ∷ codes "" ∷ codes "eth0" ∷ [])

-- An action that adds to a sum, and one that fails at it.
abbrev adds : ℕ → Action ℕ ℕ
adds k = record { show = codes "add"; run = λ w. (none, w + k) }

abbrev fails : Action ℕ ℕ
fails = record { show = codes "fail\nhere"; run = λ w. (some w, w) }

abbrev three : List (Stage ℕ ℕ)
three =
    record { title = codes "One"; notes = []; actions = adds 2 ∷ adds 3 ∷ [] }
    ∷ record { title = codes "Two"; notes = codes "why"; actions = [] }
    ∷ record { title = codes "Three"; notes = []; actions = fails ∷ adds 4 ∷ [] }
    ∷ []

abbrev shell : Console ℕ
shell = record { printed = []; enters = true ∷ []; world = 1 }

ran : outcome (run_stages false three false true shell) ≡ (some (failed 6), 6)
unfolding run_stages run_actions
ran = refl

refused : outcome (run_stages false three false false shell) ≡ (some needs_terminal, 1)
unfolding run_stages
refused = refl

run_stages-yes_example :
    Runs
      (flatten (map (λ (s : Stage ℕ ℕ). s.actions) three))
      1
      (run_stages false three false true shell).0
      (run_stages false three false true shell).1.world
run_stages-yes_example = run_stages-yes false three shell

run_stages-dry_instance :
    (outcome (run_stages false three true false shell) ≡ (none, 1))
    × ((run_stages false three true false shell).1.enters ≡ true ∷ [])
run_stages-dry_instance = run_stages-dry false false three shell

-- The atomic writes, on the small host.
abbrev etc_file : Files
etc_file p = if str_eq p (codes "/etc/f") then some (codes "old") else none

write_run-IsAtomic_example :
    IsAtomic sample
      (codes "/etc/f")
      (etc_file (codes "/etc/f"))
      (some (codes "new"))
      (write_run sample (codes "/etc/f") (codes "new") 420 etc_file)
write_run-IsAtomic_example =
    write_run-IsAtomic sample sample_laws (codes "/etc/f") (codes "new") 420 etc_file

other_file : codes "/src" ≢ tmp_of (codes "/etc/f")
other_file e = absurd (omega (arith, ap length e))

copy_file-IsAtomic_instance :
    IsAtomic sample
      (codes "/etc/f")
      (etc_file (codes "/etc/f"))
      (etc_file (codes "/src"))
      (copy_file sample (codes "/src") (codes "/etc/f") 420 etc_file)
copy_file-IsAtomic_instance =
    copy_file-IsAtomic sample sample_laws (codes "/src") (codes "/etc/f") 420 etc_file other_file

saved :
    IsAtomic sample
      (codes "/etc/f")
      (etc_file (codes "/etc/f"))
      (some (codes "{}\n"))
      (save_run sample (codes "/etc") (codes "/etc/f") (codes "{}") etc_file)
saved = save_run-IsAtomic sample sample_laws (codes "/etc") (codes "/etc/f") (codes "{}") etc_file
