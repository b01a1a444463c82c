-- ===== src/Command/Lines.antt =====
-- The messages of the tool are single lines.
use vkage.Base.{
  ◌≡◌, refl, sym, append_assoc, Bool, List, [], ◌∷◌, ◌++◌, map, Option, some, Bytes, codes, count,
  arith,
}
use vkage.Command.{
  trim_right, spaced_newline, one_line, priority_of, fatal_line, Command, command_of, main, exit_of,
  dispatched,
}

count-spaced_newline : (s : Bytes) → count b'\n' (map spaced_newline s) ≡ 0
unfolding count
count-spaced_newline [] = refl
count-spaced_newline (b ∷ s) = ground (arith, count-spaced_newline s)

-- A single line with the prefix: the prefix, a text without a newline, and a newline.
pub record IsLine (prefix out : Bytes) : Type 0 where
  pub text : Bytes
  pub no_newline : count b'\n' text ≡ 0
  pub parts : out ≡ prefix ++ (text ++ b'\n' ∷ [])

-- Whether or not stderr goes to the journal, a command that fails with any message, also one of several
-- lines, ends the process with status 1, in the world that the command left, and with a single line on
-- stderr, which begins with the tool's name behind the priority of an error.
pub main-IsLine :
    {World : Type 0} (journal : World → Bool)
    (cmds : Command → List Bytes → World → Option Bytes × World) (name : Bytes) (args : List Bytes)
    (cmd : Command) (msg : Bytes) (w v : World)
    → command_of name ≡ some cmd
    → cmds cmd args w ≡ (some msg, v)
    → ((main journal cmds (name ∷ args) w).status ≡ 1)
      × ((main journal cmds (name ∷ args) w).world ≡ v)
      × IsLine
          (priority_of (codes "<3>") (journal v) ++ codes "invirtio: ")
          (main journal cmds (name ∷ args) w).stderr
unfolding main dispatched exit_of fatal_line one_line
main-IsLine journal cmds name args cmd msg w v known failed =
    rw (known, failed)
      (
        refl,
        refl,
        record {
          text = one_line msg;
          no_newline = count-spaced_newline (trim_right msg);
          parts = sym (
              append_assoc (priority_of (codes "<3>") (journal v)) (codes "invirtio: ")
                (one_line msg ++ b'\n' ∷ []));
        },
      )
