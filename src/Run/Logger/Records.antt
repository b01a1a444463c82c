-- ===== src/Run/Logger/Records.antt =====
-- All that the logger writes is records of its own, whatever the guest sends.
use vkage.Base.{
  ℕ, zero, suc, ◌≤◌, ◌≡◌, ◌≢◌, ◌⊎◌, refl, inl, inr, Bool, false, List, [], ◌∷◌, ◌++◌, arith, Bytes,
  length, drop, Bool-cases, All, All-append, codes, ◌<◌,
}
use vkage.Utf8.{decode_rune, full_rune, runes}
use vkage.Utf8.Runes.{runes-ascii, runes-IsRune}
use vkage.Utf8.Laws.{full_rune-false_first, IsRune-high}
use vkage.Run.Logger.{
  LineLogger, priority, feed_rest, feed_pending, feed_in, feed_fuel, feed, write, close, close_line,
  new_line_logger,
}
use vkage.Run.Logger.Lines.{
  IsShown, nil, tab, ascii, rune, IsRecord, IsWf, Keeps, flush-IsWf, feed_rune-IsWf, feed_byte-IsWf,
}

module _ (journal : Bool) (prefix : Bytes) where
  feed_rest-IsWf :
      (rec : LineLogger → ℕ → LineLogger)
      → Keeps journal prefix rec
      → (rest : Bytes) (l : LineLogger) → IsWf journal prefix l
      → IsWf journal prefix (feed_rest journal rec l rest)
  unfolding feed_rest
  feed_rest-IsWf rec k [] l w = w
  feed_rest-IsWf rec k (c ∷ rest) l w = feed_rest-IsWf rec k rest (rec l c) (k l c w)

  part-IsWf :
      (l : LineLogger) (p : Bytes)
      → IsWf journal prefix l
      → full_rune p ≡ false
      → IsWf journal prefix (record l { pending = p })
  part-IsWf l p w e = record {
    named = w.named;
    partial = e;
    shown = w.shown;
    short = w.short;
    records = w.records;
  }

  feed_pending-IsWf :
      (rec : LineLogger → ℕ → LineLogger)
      → Keeps journal prefix rec
      → (l : LineLogger) (b : ℕ) (p : Bytes) → 0x80 ≤ b
      → IsWf journal prefix l
      → IsWf journal prefix (feed_pending journal rec l (b ∷ p))
  unfolding feed_pending
  feed_pending-IsWf rec k l b p h w = elim (Bool-cases (full_rune (b ∷ p))) [
    | inr part ↦ rw part (part-IsWf l (b ∷ p) w part)
    | inl whole ↦ rw whole (
        feed_rest-IsWf rec k (drop (decode_rune (b ∷ p)).1 (b ∷ p)) _
          (feed_rune-IsWf journal prefix l b p h w))
  ]

  feed_in-IsWf :
      (rec : LineLogger → ℕ → LineLogger)
      → Keeps journal prefix rec
      → (p : Bytes) (l : LineLogger) (b : ℕ) → full_rune p ≡ false
      → IsWf journal prefix l
      → IsWf journal prefix (feed_in journal p rec l b)
  unfolding feed_in
  feed_in-IsWf rec k [] l b e w =
      ground (arith, feed_pending-IsWf rec k l b [], feed_byte-IsWf journal prefix l b w, w)
  feed_in-IsWf rec k (q ∷ ps) l b e w =
      feed_pending-IsWf rec k l q (ps ++ b ∷ []) (full_rune-false_first q ps e) w

  pub feed_fuel-IsWf : (n : ℕ) → Keeps journal prefix (feed_fuel journal n)
  unfolding feed_fuel
  feed_fuel-IsWf zero l b w = w
  feed_fuel-IsWf (suc n) l b w =
      feed_in-IsWf (feed_fuel journal n) (feed_fuel-IsWf n) l.pending l b w.partial w

  pub write-IsWf :
      (p : Bytes) (l : LineLogger) → IsWf journal prefix l → IsWf journal prefix (write journal l p)
  unfolding write feed
  write-IsWf [] l w = w
  write-IsWf (b ∷ p) l w = write-IsWf p (feed journal l b) (feed_fuel-IsWf 4 l b w)

  close-IsWf : (l : LineLogger) → IsWf journal prefix l → IsWf journal prefix (close journal l)
  unfolding close
  close-IsWf l w = go l.line w
    where
      go : (s : Bytes) → IsWf journal prefix l → IsWf journal prefix (close_line journal s l)
      go [] w = w
      go (b ∷ s) w = flush-IsWf journal prefix l w

new-IsWf :
    (journal : Bool) (name : Bytes) → IsWf journal (name ++ codes ": ") (new_line_logger name)
unfolding full_rune
new-IsWf journal name = record {
  named = refl;
  partial = refl;
  shown = nil;
  short = omega arith;
  records = tt;
}

-- No byte of shown text is a newline, an ESC or another control character, and none is DEL.
abbrev pub IsTame : Bytes → Type 0
IsTame = All (λ b. (b ≡ b'\t') ⊎ ((0x20 ≤ b) × (b ≢ 0x7f)))

high-IsTame : (s : Bytes) → All (λ b. 0x80 ≤ b) s → IsTame s
high-IsTame [] h = tt
high-IsTame (b ∷ s) (h, hs) = (inr (omega arith), high-IsTame s hs)

IsShown-IsTame : {s : Bytes} → IsShown s → IsTame s
IsShown-IsTame nil = tt
IsShown-IsTame (tab c) = (inl refl, IsShown-IsTame c)
IsShown-IsTame (ascii h k c) = (inr (omega arith), IsShown-IsTame c)
IsShown-IsTame (rune {seq} {s} i h c e) = rw e (
    All-append (λ b. (b ≡ b'\t') ⊎ ((0x20 ≤ b) × (b ≢ 0x7f))) seq s
      (high-IsTame seq (IsRune-high i)) (IsShown-IsTame c))

-- A rune of a line that is shown: a tab, printable ASCII, or a whole rune above the controls from 0x80
-- to 0x9f. A byte that is no part of a rune is read as an error of one byte, which is none of these.
abbrev pub IsShownRune : ℕ × ℕ → Type 0
IsShownRune (r, size) = (r ≡ 9) ⊎ ((0x20 ≤ r) × (r < 0x7f)) ⊎ ((0x9f < r) × (1 < size))

IsShown-runes : {s : Bytes} → IsShown s → All IsShownRune (runes s)
IsShown-runes nil = unfold runes in tt
IsShown-runes (tab {s} c) = rw (runes-ascii b'\t' s (omega arith)) (inl refl, IsShown-runes c)
IsShown-runes (ascii {b} {s} h k c) =
    rw (runes-ascii b s (omega arith)) (inr (inl (h, k)), IsShown-runes c)
IsShown-runes (rune {seq} {s} i h c e) =
    rw (e, runes-IsRune seq s i) (inr (inr (omega arith, i.multibyte)), IsShown-runes c)

-- A write to the journal that holds one line of the logger: the priority if stdout is the journal,
-- the prefix, at most 1024 bytes of valid UTF-8 without control characters but tabs, and the one
-- newline.
abbrev pub IsLogLine : Bool → Bytes → Bytes → Type 0
IsLogLine journal name w =
    (body : Bytes) × (w ≡ priority journal ++ ((name ++ codes ": ") ++ (body ++ b'\n' ∷ [])))
    × IsTame body
    × All IsShownRune (runes body)
    × (length body ≤ 1024)

log_lines :
    (journal : Bool) (name : Bytes) (ws : List Bytes)
    → All (IsRecord journal (name ++ codes ": ")) ws
    → All (IsLogLine journal name) ws
log_lines journal name [] h = tt
log_lines journal name (w ∷ ws) (r, h) = (
  (r.body, r.is_line, IsShown-IsTame r.is_shown, IsShown-runes r.is_shown, r.is_short),
  log_lines journal name ws h,
)

-- Whatever bytes the guest sends, each write of the logger, that of `close` included, is one line
-- that begins with the logger's prefix, and of at most 1024 bytes of the guest's text behind it, all of
-- them whole runes of UTF-8: none is an ASCII control character but tabs, and none is a control from
-- 0x80 to 0x9f. So the guest can neither forge a line of another prefix nor hide one.
pub close-IsLogLine :
    (journal : Bool) (name : Bytes) (sent : Bytes)
    → All
        (IsLogLine journal name)
        (close journal (write journal (new_line_logger name) sent)).written
close-IsLogLine journal name sent =
    log_lines journal name _
      (close-IsWf journal (name ++ codes ": ") _ (
        write-IsWf journal (name ++ codes ": ") sent (new_line_logger name)
          (new-IsWf journal name))).records
