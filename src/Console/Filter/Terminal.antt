-- ===== src/Console/Filter/Terminal.antt =====
-- A terminal in UTF-8 mode, as a state machine over the code points that it reads. It says when a
-- terminal collects the string of an OSC, DCS, SOS, PM or APC control, or of the title of screen.
use vkage.Base.{
  ℕ, ◌≤◌, ◌<◌, ◌≡◌, ◌≢◌, Bool, false, ◌||◌, List, [], ◌∷◌, arith, Bytes, ltb, ◌==◌, if◌then◌else◌,
}
use vkage.Utf8.{runes, within}
use vkage.Utf8.Runes.{runes-ascii, runes-IsRune}
use vkage.Console.Filter.{EscapeFilter, opens_string, feed_all, initial, write, relay}
use vkage.Console.Filter.Wf.{IsWf, feed_all-IsWf, initial-IsWf}
use vkage.Console.Filter.Clean.{IsClean, nil, ascii, escape, rune, IsClean-append, feed_all-IsClean}

-- `collecting` is the state that the filter keeps terminals from: it is never left here.
pub data Terminal : Type 0 where
  ground_state escaped intermediate control_sequence collecting : Terminal

-- A 8-bit control, as a code point, or the character that ESC makes one of, opens a string.
opens : ℕ → Bool
opens c = c == 0x90 || c == 0x98 || c == 0x9d || c == 0x9e || c == 0x9f

opens_escaped : ℕ → Bool
opens_escaped c = c == b'P' || c == b'X' || c == b']' || c == b'^' || c == b'_' || c == b'k'

-- What any state but `collecting` does first: 8-bit controls, ESC, CAN and SUB act in all of them,
-- and the other ASCII controls and DEL leave the state alone.
control : Terminal → ℕ → Terminal → Terminal
unfolding opens
control t c other =
    if opens c
    then collecting
    else if c == 0x9b
    then control_sequence
    else if within 0x80 0x9f c
    then ground_state
    else if c == 0x1b
    then escaped
    else if c == 0x18 || c == 0x1a
    then ground_state
    else if ltb c 0x20 || c == 0x7f
    then t
    else other

pub terminal_step : Terminal → ℕ → Terminal
unfolding control opens_escaped
terminal_step collecting c = collecting
terminal_step ground_state c = control ground_state c ground_state
terminal_step escaped c = control escaped c (
    if opens_escaped c
    then collecting
    else if c == b'['
    then control_sequence
    else if within 0x20 0x2f c
    then intermediate
    else ground_state)
terminal_step intermediate c =
    control intermediate c (if within 0x20 0x2f c then intermediate else ground_state)
terminal_step control_sequence c =
    control control_sequence c (if within 0x40 0x7e c then ground_state else control_sequence)

terminal_run : Terminal → List (ℕ × ℕ) → Terminal
terminal_run t [] = t
terminal_run t ((r, size) ∷ rs) = terminal_run (terminal_step t r) rs

-- The state after the bytes `s`, from state `t`.
pub terminal_reads : Terminal → Bytes → Terminal
unfolding terminal_run
terminal_reads t s = terminal_run t (runes s)

-- Neither collecting a string nor behind an ESC.
abbrev pub IsQuiet : Terminal → Type 0
IsQuiet t = (t ≢ collecting) × (t ≢ escaped)

step_ascii : (t : Terminal) (b : ℕ) → IsQuiet t → b < 0x80 → b ≢ 0x1b → IsQuiet (terminal_step t b)
unfolding terminal_step
step_ascii ground_state b q h n = ground arith
step_ascii _ b q h n = ground arith

step_escape :
    (t : Terminal) (b : ℕ)
    → IsQuiet t
    → 0x20 ≤ b
    → b < 0x7f
    → opens_string b ≡ false
    → IsQuiet (terminal_step (terminal_step t 0x1b) b)
unfolding terminal_step opens_string
step_escape ground_state b q h k o = ground arith
step_escape _ b q h k o = ground arith

step_rune : (t : Terminal) (r : ℕ) → IsQuiet t → 0xa0 ≤ r → IsQuiet (terminal_step t r)
unfolding terminal_step
step_rune ground_state r q h = ground arith
step_rune _ r q h = ground arith

IsClean-IsQuiet : {s : Bytes} (t : Terminal) → IsClean s → IsQuiet t → IsQuiet (terminal_reads t s)
unfolding terminal_reads terminal_run
IsClean-IsQuiet t nil q = unfold runes in q
IsClean-IsQuiet t (ascii {b} {s} h n c) q =
    rw (runes-ascii b s h) (IsClean-IsQuiet (terminal_step t b) c (step_ascii t b q h n))
IsClean-IsQuiet t (escape {b} {s} h k o g c) q =
    rw (runes-ascii 0x1b (b ∷ s) (omega arith), runes-ascii b s (omega arith))
      (IsClean-IsQuiet (terminal_step (terminal_step t 0x1b) b) c (step_escape t b q h k o))
IsClean-IsQuiet t (rune {r} {seq} {s} i h c e) q =
    rw (e, runes-IsRune seq s i) (IsClean-IsQuiet (terminal_step t r) c (step_rune t r q h))

pub relay-IsClean : (ps : List Bytes) (f : EscapeFilter) → IsWf f → IsClean (relay f ps)
unfolding relay write
relay-IsClean [] f w = nil
relay-IsClean (p ∷ ps) f w =
    IsClean-append (feed_all-IsClean p f [] w nil)
      (relay-IsClean ps (feed_all f p []).0 (feed_all-IsWf p f [] w))

-- Whatever the guest sends, and however its output is split into reads, a terminal that collects no
-- string and is not behind an ESC before the filter's output is in such a state after it: no OSC,
-- DCS, SOS, PM or APC control, and no title string of screen, opens on the terminal.
pub relay-IsQuiet :
    (t : Terminal) (reads : List Bytes)
    → IsQuiet t
    → IsQuiet (terminal_reads t (relay initial reads))
relay-IsQuiet t reads q = IsClean-IsQuiet t (relay-IsClean reads initial initial-IsWf) q
