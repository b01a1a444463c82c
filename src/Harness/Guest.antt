-- ===== src/Harness/Guest.antt =====
-- A guest whose shell is driven through its console, of tools/internal/harness/harness.go: the console
-- as its log file, and the output of a command between two marks.
pub mod Laws
mod Tests
use vkage.Base.{
  ℕ, zero, suc, ◌+◌, ◌-◌, Bool, true, false, List, [], ◌∷◌, ◌++◌, Option, none, some, Bytes, codes,
  decimal, has_prefix, length, take, drop, ltb, ◌==◌, if◌then◌else◌,
}

-- `Log`, of what the file holds, from where the guest started.
unfoldable pub log_from : ℕ → Option Bytes → Bytes
log_from start none = []
log_from start (some text) = if ltb (length text) start then [] else drop start text

index_next : Option ℕ → Option ℕ
index_next none = none
index_next (some i) = some (suc i)

-- `strings.Index`, `none` for -1.
unfoldable pub index : Bytes → Bytes → Option ℕ
unfolding index_next has_prefix
index [] sub = if has_prefix [] sub then some 0 else none
index (b ∷ s) sub =
    let rest = index_next (index s sub) in if has_prefix (b ∷ s) sub then some 0 else rest

abbrev pub start_mark : ℕ → Bytes
start_mark n = codes "mark-" ++ (decimal n ++ codes "-start")

abbrev pub end_mark : ℕ → Bytes
end_mark n = codes "mark-" ++ (decimal n ++ codes "-end")

-- A mark as the input has it, in two parts for the shell to join.
unfoldable pub split_mark : Bytes → Bytes
split_mark m = take (length m - 1) m ++ (codes "''" ++ drop (length m - 1) m)

-- What is written to the console for a command.
unfoldable pub input_line : ℕ → Bytes → Bytes
unfolding split_mark
input_line n line =
    codes "echo "
    ++ (split_mark (start_mark n)
        ++ (codes "; " ++ (line ++ (codes "; echo " ++ (split_mark (end_mark n) ++ b'\n' ∷ [])))))

unfoldable pub without_cr : Bytes → Bytes
without_cr [] = []
without_cr (b ∷ s) = let rest = without_cr s in if b == b'\r' then rest else b ∷ rest

-- A slice of a string, `none` where the program would panic.
unfoldable pub slice : Bytes → ℕ → ℕ → Option Bytes
slice s i j =
    if ltb j i then none else if ltb (length s) j then none else some (take (j - i) (drop i s))

sliced : Option Bytes → Option Bytes
unfolding without_cr
sliced none = none
sliced (some s) = some (without_cr s)

-- What stands between the marks, by their places; `none` is a panic.
pub between : Bytes → Bytes → Option ℕ → Option ℕ → Option Bytes
unfolding sliced slice
between log start none j = some []
between log start (some i) none = some []
between log start (some i) (some j) =
    if ltb j i then some [] else sliced (slice log (i + length start) j)

-- The guest as `Output` uses it: `send` writes to its console and `wait_for` waits for a text.
pub record GuestHost : Type 1 where
  pub World : Type 0
  pub send : Bytes → World → Bool × World
  pub wait_for : Bytes → World → Bool × World
  pub log : World → Bytes

module _ (h : GuestHost) where
  waited : ℕ → Bool × h.World → Option Bytes × h.World
  unfolding between index
  waited n (shown, w) =
      if shown
      then (
        between (h.log w) (start_mark n) (index (h.log w) (start_mark n))
            (index (h.log w) (end_mark n)),
        w,
      )
      else (some [], w)

  sent : ℕ → Bool × h.World → Option Bytes × h.World
  unfolding waited
  sent n (done, w) = if done then waited n (h.wait_for (end_mark n) w) else (some [], w)

  -- `Output` for the mark's number.
  unfoldable pub output : ℕ → Bytes → h.World → Option Bytes × h.World
  unfolding sent input_line
  output n line w = sent n (h.send (input_line n line) w)
