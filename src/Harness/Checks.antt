-- ===== src/Harness/Checks.antt =====
-- Checks, commands' outcomes, polling and the kernel's log, of tools/internal/harness/harness.go.
pub mod Laws
use vkage.Base.{
  ℕ, zero, suc, ◌+◌, Bool, true, false, ◌&&◌, ◌||◌, List, [], ◌∷◌, ◌++◌, Option, none, some, Bytes,
  codes, decimal, length, ◌==◌, if◌then◌else◌,
}
use vkage.Pci.Address.{contains}

-- A `Checker`, by its failures, in order, and what it printed.
pub record Checker : Type 0 where
  pub failures : List Bytes
  pub printed : List Bytes

-- `Check`. It returns the condition.
unfoldable pub check : Bool → Bytes → Checker → Bool × Checker
check cond what c =
    if cond then (cond, record c { printed = c.printed ++ (codes "ok: " ++ what) ∷ [] }) else (
      cond,
      record {
        failures = c.failures ++ what ∷ [];
        printed = c.printed ++ (codes "FAIL: " ++ what) ∷ [];
      },
    )

-- `Report`: the error, and what is printed without one.
unfoldable pub report : Checker → Option Bytes × Checker
report c =
    if length c.failures == 0
    then (none, record c { printed = c.printed ++ codes "all checks passed" ∷ [] })
    else (some (decimal (length c.failures) ++ codes " check(s) failed"), c)

-- How a command ended: `deadline` and `cancelled` are its context's, the others `cmd.Run`'s.
pub data Ended (Fault : Type 0) : Type 0 where
  deadline cancelled : Fault → Ended Fault
  -- With its status, `none` where a signal ended it.
  exited : Option ℕ → Ended Fault
  failed : Fault → Ended Fault
  done : Ended Fault

-- A `Result` without its output. A code of -1 is `none`.
pub record Outcome (Fault : Type 0) : Type 0 where
  pub code : Option ℕ
  pub timed_out : Bool
  pub error : Option Fault

is_zero : Option ℕ → Bool
is_zero none = false
is_zero (some n) = n == 0

module _ {Fault : Type 0} where
  -- The switch of `RunContext`.
  unfoldable pub outcome : Ended Fault → Outcome Fault
  outcome (deadline e) = record { code = none; timed_out = true; error = some e }
  outcome (cancelled e) = record { code = none; timed_out = false; error = some e }
  outcome (exited n) = record { code = n; timed_out = false; error = none }
  outcome (failed e) = record { code = none; timed_out = false; error = some e }
  outcome done = record { code = some 0; timed_out = false; error = none }

  is_nil : Option Fault → Bool
  is_nil none = true
  is_nil (some e) = false

  -- `Result.OK`.
  unfoldable pub is_ok : Outcome Fault → Bool
  unfolding is_zero is_nil
  is_ok r = is_zero r.code && is_nil r.error

-- `Wait`, where so many rounds begin before its end; `poll` is the condition and `sleep` the step.
module _ {World : Type 0} (poll : World → Bool × World) (sleep : World → World) where
  unfoldable pub wait : ℕ → World → Bool × World
  wait zero w = poll w
  wait (suc n) w =
      let r = poll w in let later = wait n (sleep r.1) in if r.0 then (true, r.1) else later

-- Lines in which the text stands.
abbrev Lines : Type 0
Lines = List Bytes

since_next : Bytes → Bytes → Lines → Option Lines → Option Lines
unfolding contains
since_next mark l ls (some found) = some found
since_next mark l ls none = if contains l mark then some ls else none

-- What follows the last line with the mark.
since : Bytes → Lines → Option Lines
unfolding since_next
since mark [] = none
since mark (l ∷ ls) = since_next mark l ls (since mark ls)

or_whole : Lines → Option Lines → Lines
or_whole ls none = ls
or_whole ls (some found) = found

-- `KernelLogSince`, of the log's lines.
unfoldable pub log_since : Bytes → Lines → Lines
unfolding since or_whole
log_since mark ls = or_whole ls (since mark ls)

unfoldable pub is_warning : Bytes → Bool
unfolding contains
is_warning l =
    contains l (codes "WARNING:")
    || contains l (codes "BUG:")
    || contains l (codes "circular locking")

unfoldable pub warnings : Lines → Lines
unfolding is_warning
warnings [] = []
warnings (l ∷ ls) = let rest = warnings ls in if is_warning l then l ∷ rest else rest
