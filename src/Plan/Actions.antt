-- ===== src/Plan/Actions.antt =====
-- The actions of tools/cmd/invirtio/plan.go, and `copyFile` and `save` of install.go and config.go,
-- over the host. A run that a crash can cut short is traced: it keeps the worlds that it passes.
pub mod Atomic
pub mod Keeps
use vkage.Base.{
  ℕ, ◌+◌, ◌/◌, ◌%◌, Bool, true, false, not, List, [], ◌∷◌, ◌++◌, Option, none, some, Bytes, codes,
  ◌==◌, if◌then◌else◌, str_eq,
}
use vkage.Host.{Host}
use vkage.Plan.Stages.{Action}
use vkage.Plan.Quote.{shell_quote, show_cmd}

-- `%04o`, of a mode below 0o10000.
unfoldable pub octal4 : ℕ → Bytes
octal4 m = (b'0' + m / 512 % 8) ∷ (b'0' + m / 64 % 8) ∷ (b'0' + m / 8 % 8) ∷ (b'0' + m % 8) ∷ []

-- `strings.TrimSuffix` of a newline.
unfoldable pub trim_newline : Bytes → Bytes
trim_newline [] = []
trim_newline (b ∷ []) = if b == b'\n' then [] else b ∷ []
trim_newline (b ∷ c ∷ s) = b ∷ trim_newline (c ∷ s)

-- Where a file is written before it is renamed.
abbrev pub tmp_of : Bytes → Bytes
tmp_of path = path ++ codes ".tmp"

module _ (h : Host) where
  open h use {World, Fault}

  unfoldable pub cmd_action : Bytes → List Bytes → Action World Fault
  cmd_action name args = record { show = show_cmd name args; run = h.command name args }

  unfoldable pub mkdir_action : Bytes → ℕ → Action World Fault
  unfolding octal4
  mkdir_action dir mode = record {
    show = show_cmd (codes "mkdir") (codes "-p" ∷ codes "-m" ∷ octal4 mode ∷ dir ∷ []);
    run = h.mkdir_all dir mode;
  }

  -- `needed` is none for nil.
  sysfs_run : Bytes → Bytes → Option (World → Bool) → World → Option Fault × World
  sysfs_run path value none w = h.sysfs_write path (value ++ b'\n' ∷ []) w
  sysfs_run path value (some needed) w =
      if needed w then h.sysfs_write path (value ++ b'\n' ∷ []) w else (none, w)

  unfoldable pub sysfs_action : Bytes → Bytes → Option (World → Bool) → Action World Fault
  unfolding sysfs_run
  sysfs_action path value needed = record {
    show =
        if str_eq value []
        then codes "echo > " ++ shell_quote path
        else codes "echo " ++ (shell_quote value ++ (codes " > " ++ shell_quote path));
    run = sysfs_run path value needed;
  }

  -- A run with the worlds that it passes through, its last among them.
  abbrev pub Traced : Type 0
  Traced = record { passed : List World; error : Option Fault; world : World }

  ended : List World → Option Fault × World → Traced
  ended ws (e, w) = record { passed = ws ++ w ∷ []; error = e; world = w }

  -- A step; where it fails the run ends.
  step_then : List World → Option Fault × World → (List World → World → Traced) → Traced
  unfolding ended
  step_then ws (none, w) next = next (ws ++ w ∷ []) w
  step_then ws (some e, w) next = ended ws (some e, w)

  -- A step; where it fails the file is removed, and the run ends with the step's error.
  step_or_remove :
      Bytes → List World → Option Fault × World → (List World → World → Traced) → Traced
  unfolding ended
  step_or_remove tmp ws (none, w) next = next (ws ++ w ∷ []) w
  step_or_remove tmp ws (some e, w) next = ended (ws ++ w ∷ []) (some e, (h.remove tmp w).1)

  -- The run of `writeAction`.
  unfoldable pub write_run : Bytes → Bytes → ℕ → World → Traced
  unfolding step_then step_or_remove ended
  write_run path content mode w =
      step_then [] (h.write_file (tmp_of path) content mode w) (λ ws1 w1.
        step_or_remove (tmp_of path) ws1 (h.chmod (tmp_of path) mode w1)
          (λ ws2 w2. ended ws2 (h.rename (tmp_of path) path w2)))

  unfoldable pub write_action : Bytes → Bytes → ℕ → Action World Fault
  unfolding write_run octal4 trim_newline
  write_action path content mode = record {
    show =
        show_cmd (codes "install") (codes "-m" ∷ octal4 mode ∷ codes "/dev/stdin" ∷ path ∷ [])
        ++ (codes " <<'EOF'\n" ++ (trim_newline content ++ codes "\nEOF"));
    run = λ w. let t = write_run path content mode w in (t.error, t.world);
  }

  -- `save` of config.go, of the text that the configuration is marshalled to.
  unfoldable pub save_run : Bytes → Bytes → Bytes → World → Traced
  unfolding step_then ended
  save_run dir path text w = step_then [] (h.mkdir_all dir 493 w) (λ ws1 w1.
      step_then ws1 (h.write_file (tmp_of path) (text ++ b'\n' ∷ []) 420 w1)
        (λ ws2 w2. ended ws2 (h.rename (tmp_of path) path w2)))

  -- The steps of `copyFile` behind the opening of its source.
  copy_steps : Bytes → Bytes → ℕ → World → Traced
  unfolding step_then step_or_remove ended
  copy_steps src dst mode w = step_then [] (h.create (tmp_of dst) mode w) (λ ws1 w1.
      step_or_remove (tmp_of dst) ws1 (h.copy_data src (tmp_of dst) w1) (λ ws2 w2.
        step_or_remove (tmp_of dst) ws2 (h.close (tmp_of dst) w2) (λ ws3 w3.
          step_then ws3 (h.chmod (tmp_of dst) mode w3)
            (λ ws4 w4. ended ws4 (h.rename (tmp_of dst) dst w4)))))

  copy_opened : Option Fault → Bytes → Bytes → ℕ → World → Traced
  unfolding copy_steps
  copy_opened none src dst mode w = copy_steps src dst mode w
  copy_opened (some e) src dst mode w = record { passed = w ∷ []; error = some e; world = w }

  unfoldable pub copy_file : Bytes → Bytes → ℕ → World → Traced
  unfolding copy_opened
  copy_file src dst mode w =
      if h.same_file src dst w
      then record { passed = w ∷ []; error = none; world = w }
      else copy_opened (h.open_source src w) src dst mode w

  unfoldable pub copy_action : Bytes → Bytes → ℕ → Action World Fault
  unfolding copy_file octal4
  copy_action src dst mode = record {
    show = show_cmd (codes "install") (codes "-m" ∷ octal4 mode ∷ src ∷ dst ∷ []);
    run = λ w. let t = copy_file src dst mode w in (t.error, t.world);
  }
