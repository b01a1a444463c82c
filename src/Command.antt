-- ===== src/Command.antt =====
-- tools/cmd/invirtio/main.go: the choice of the command, what becomes of its error, and the messages of
-- one line, with `logf` of run.go. A message is its text, formatted.
pub mod Lines
mod Tests
use vkage.Base.{
  ℕ, Bool, true, false, ◌&&◌, List, [], ◌∷◌, ◌++◌, map, Option, none, some, Bytes, codes, str_eq,
  ◌==◌, if◌then◌else◌,
}

-- `strings.TrimRight` of newlines.
unfoldable pub trim_right : Bytes → Bytes
trim_right [] = []
trim_right (b ∷ s) =
    let rest = trim_right s in if b == b'\n' && str_eq rest [] then [] else b ∷ rest

-- `strings.ReplaceAll` of a newline by a space.
abbrev pub spaced_newline : ℕ → ℕ
spaced_newline b = if b == b'\n' then b' ' else b

unfoldable pub one_line : Bytes → Bytes
unfolding trim_right
one_line s = map spaced_newline (trim_right s)

-- A syslog priority, where the stream is the journal's.
abbrev pub priority_of : Bytes → Bool → Bytes
priority_of priority on_journal = if on_journal then priority else []

-- What `fatal`, `warn` and `logf` print.
unfoldable pub fatal_line : Bool → Bytes → Bytes
unfolding one_line
fatal_line on_journal msg =
    priority_of (codes "<3>") on_journal ++ (codes "invirtio: " ++ (one_line msg ++ b'\n' ∷ []))

unfoldable pub warn_line : Bool → Bytes → Bytes
unfolding one_line
warn_line on_journal msg =
    priority_of (codes "<4>") on_journal ++ (codes "invirtio: " ++ (one_line msg ++ b'\n' ∷ []))

unfoldable pub log_line : Bool → Bytes → Bytes
unfolding one_line
log_line on_journal msg = priority_of (codes "<5>") on_journal ++ (one_line msg ++ b'\n' ∷ [])

pub data Command : Type 0 where
  cmd_install cmd_uninstall cmd_enable cmd_disable cmd_list cmd_status cmd_console cmd_run : Command

unfoldable pub command_of : Bytes → Option Command
command_of name =
    if str_eq name (codes "install")
    then some cmd_install
    else if str_eq name (codes "uninstall")
    then some cmd_uninstall
    else if str_eq name (codes "enable")
    then some cmd_enable
    else if str_eq name (codes "disable")
    then some cmd_disable
    else if str_eq name (codes "list")
    then some cmd_list
    else if str_eq name (codes "status")
    then some cmd_status
    else if str_eq name (codes "console")
    then some cmd_console
    else if str_eq name (codes "run")
    then some cmd_run
    else none

abbrev pub usage_text : Bytes
usage_text =
    codes
      "usage: invirtio <command> [arguments]\n\nCommands:\n  install    install the guest, the launcher and this tool, and the service\n  uninstall  disable every device and remove what install added\n  enable     run a device's driver in a guest and export it to the host\n  disable    stop a device's guest and return the device to its host driver\n  list       list the host's WiFi and Ethernet devices and their drivers\n  status     show the state of the devices\n  console    attach to a device's guest console, Ctrl-] detaches\n  run        run a device's guest, as the service does\n\nRun \"invirtio <command> -h\" for a command's options.\n"

-- How the process ends: its exit status, and what main itself prints to stderr.
pub record Exit (World : Type 0) : Type 0 where
  pub status : ℕ
  pub stderr : Bytes
  pub world : World

-- `journal` says whether stderr goes to the journal, which the command finds out. `cmds` runs a
-- command that returns; one that exits by itself does not come back to main.
module _ {World : Type 0} (journal : World → Bool) where
  abbrev pub usage : World → Exit World
  usage w = record { status = 2; stderr = usage_text; world = w }

  exit_of : Option Bytes × World → Exit World
  unfolding fatal_line
  exit_of (none, w) = record { status = 0; stderr = []; world = w }
  exit_of (some msg, w) = record { status = 1; stderr = fatal_line (journal w) msg; world = w }

  dispatched :
      (Command → List Bytes → World → Option Bytes × World)
      → List Bytes
      → World
      → Option Command
      → Exit World
  unfolding exit_of
  dispatched cmds args w none = usage w
  dispatched cmds args w (some cmd) = exit_of (cmds cmd args w)

  -- The arguments are those behind the program's name.
  unfoldable pub main :
      (Command → List Bytes → World → Option Bytes × World) → List Bytes → World → Exit World
  unfolding dispatched command_of
  main cmds [] w = usage w
  main cmds (name ∷ args) w = dispatched cmds args w (command_of name)
