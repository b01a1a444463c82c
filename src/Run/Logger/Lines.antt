-- ===== src/Run/Logger/Lines.antt =====
-- What the logger writes: whole lines of bounded length, with no control characters.
use vkage.Base.{
  ℕ, ◌+◌, ◌≤◌, ◌<◌, ◌≡◌, ◌⊎◌, refl, sym, inl, inr, Bool, true, false, [], ◌∷◌, ◌++◌, append-nil,
  append_assoc, arith, Bytes, length, take, drop, Bool-cases, All, All-append, length-append,
  length-take, not, ◌&&◌, ◌||◌, ltb, ◌==◌,
}
use vkage.Utf8.{rune_error, decode_rune, full_rune}
use vkage.Utf8.Laws.{
  IsRune, decode_rune_size_four, decode_rune_size_pos, decode_rune_invalid, take-IsRune,
}
use vkage.Run.Logger.{LineLogger, max_log_line, priority, flush, flush_if, feed_rune, feed_byte}

-- Text with no control characters but tabs: printable ASCII, tabs, and whole runes above the 8-bit
-- controls.
pub data IsShown : Bytes → Type 0 where
  nil : IsShown []
  tab : {s : Bytes} → IsShown s → IsShown (b'\t' ∷ s)
  ascii : {b : ℕ} {s : Bytes} → 0x20 ≤ b → b < 0x7f → IsShown s → IsShown (b ∷ s)
  rune : {r : ℕ} {seq s t : Bytes} → IsRune r seq → 0xa0 ≤ r → IsShown s → t ≡ seq ++ s → IsShown t

IsShown-append : {s t : Bytes} → IsShown s → IsShown t → IsShown (s ++ t)
IsShown-append nil d = d
IsShown-append (tab c) d = tab (IsShown-append c d)
IsShown-append (ascii h n c) d = ascii h n (IsShown-append c d)
IsShown-append {t} (rune {seq} {s = s'} i h c e) d =
    rune i h (IsShown-append c d) (rw e (append_assoc seq s' t))

-- One write of the logger: its prefix, a body of at most 1024 bytes, and a newline.
pub record IsRecord (journal : Bool) (prefix w : Bytes) : Type 0 where
  pub body : Bytes
  pub is_line : w ≡ priority journal ++ (prefix ++ (body ++ b'\n' ∷ []))
  pub is_shown : IsShown body
  pub is_short : length body ≤ max_log_line

pub record IsWf (journal : Bool) (prefix : Bytes) (l : LineLogger) : Type 0 where
  pub named : l.prefix ≡ prefix
  pub partial : full_rune l.pending ≡ false
  pub shown : IsShown l.line
  pub short : length l.line ≤ max_log_line
  pub records : All (IsRecord journal prefix) l.written

module _ (journal : Bool) (prefix : Bytes) where
  -- What a nested call keeps.
  abbrev pub Keeps : (LineLogger → ℕ → LineLogger) → Type 0
  Keeps rec = (l : LineLogger) (b : ℕ) → IsWf journal prefix l → IsWf journal prefix (rec l b)

  pub flush-IsWf : (l : LineLogger) → IsWf journal prefix l → IsWf journal prefix (flush journal l)
  flush-IsWf l w = record {
    named = w.named;
    partial = w.partial;
    shown = nil;
    short = omega arith;
    records = All-append (IsRecord journal prefix) l.written _ w.records (
      record { body = l.line; is_line = rw w.named; is_shown = w.shown; is_short = w.short },
      tt,
    );
  }

  -- A line that has room grows by shown text.
  grow-IsWf :
      (l : LineLogger) (s p : Bytes)
      → IsWf journal prefix l
      → IsShown s
      → length l.line + length s ≤ max_log_line
      → full_rune p ≡ false
      → IsWf journal prefix (record l { line = l.line ++ s; pending = p })
  grow-IsWf l s p w c h e = record {
    named = w.named;
    partial = e;
    shown = IsShown-append w.shown c;
    short = omega (arith, length-append l.line s);
    records = w.records;
  }

  clear-IsWf :
      (l : LineLogger) → IsWf journal prefix l → IsWf journal prefix (record l { pending = [] })
  unfolding full_rune
  clear-IsWf l w = record {
    named = w.named;
    partial = refl;
    shown = w.shown;
    short = w.short;
    records = w.records;
  }

  rune-IsShown :
      (p : Bytes)
      → 1 < (decode_rune p).1
      → 0xa0 ≤ (decode_rune p).0
      → IsShown (take (decode_rune p).1 p)
  rune-IsShown p h k = rune (take-IsRune p h) k nil (sym (append-nil _))

  flush_if-IsWf :
      (c : Bool) (l : LineLogger)
      → IsWf journal prefix l
      → IsWf journal prefix (flush_if journal c l)
  flush_if-IsWf true l w = flush-IsWf l w
  flush_if-IsWf false l w = w

  room_for_rune :
      (l : LineLogger) (n : ℕ)
      → n ≤ 4
      → length (flush_if journal (ltb max_log_line (length l.line + n)) l).line + n ≤ max_log_line
  room_for_rune l n h = ground arith

  room_for_byte :
      (l : LineLogger)
      → length l.line ≤ max_log_line
      → length (flush_if journal (length l.line == max_log_line) l).line + 1 ≤ max_log_line
  room_for_byte l h = ground arith

  -- What the test on a decoded rune says.
  accepted :
      (b : ℕ) (p : Bytes)
      → 0x80 ≤ b
      → ((not ((decode_rune (b ∷ p)).0 == rune_error) || ltb 1 (decode_rune (b ∷ p)).1)
          && ltb 0x9f (decode_rune (b ∷ p)).0)
        ≡ true
      → (1 < (decode_rune (b ∷ p)).1) × (0xa0 ≤ (decode_rune (b ∷ p)).0)
  accepted b p h e = ground (arith, decode_rune_invalid b p, decode_rune_size_pos b p)

  pub feed_rune-IsWf :
      (l : LineLogger) (b : ℕ) (p : Bytes)
      → 0x80 ≤ b
      → IsWf journal prefix l
      → IsWf journal prefix
          (feed_rune journal l (b ∷ p) (decode_rune (b ∷ p)).0 (decode_rune (b ∷ p)).1)
  unfolding feed_rune full_rune
  feed_rune-IsWf l b p h w =
      let (r, n) = decode_rune (b ∷ p) in
      elim (Bool-cases ((not (r == rune_error) || ltb 1 n) && ltb 0x9f r)) [
        | inr drop ↦ rw drop (clear-IsWf l w)
        | inl keep ↦ rw keep (
            let (many, high) = accepted b p h keep in
            let full = ltb max_log_line (length l.line + n) in
            let size : length (take n (b ∷ p)) ≤ n = omega (arith, length-take n (b ∷ p)) in
            grow-IsWf (flush_if journal full l) (take n (b ∷ p)) [] (flush_if-IsWf full l w)
              (rune-IsShown (b ∷ p) many high)
              (omega (arith, room_for_rune l n (decode_rune_size_four (b ∷ p)))) refl)
      ]

  -- A byte that is shown in the line.
  byte-IsWf :
      (l : LineLogger) (b : ℕ)
      → IsWf journal prefix l
      → (b ≡ b'\t') ⊎ ((0x20 ≤ b) × (b < 0x7f))
      → IsWf journal prefix (
          let l' = flush_if journal (length l.line == max_log_line) l in
          record l' { line = l'.line ++ b ∷ [] })
  byte-IsWf l b w h =
      let full = length l.line == max_log_line in
      let w' = flush_if-IsWf full l w in
      grow-IsWf (flush_if journal full l) (b ∷ []) (flush_if journal full l).pending w'
        (elim h [ inl e ↦ rw e (tab nil) | inr k ↦ ascii k.0 k.1 nil ]) (room_for_byte l w.short)
        w'.partial

  -- A change of the flags alone.
  flags-IsWf :
      (l : LineLogger) (e c : Bool)
      → IsWf journal prefix l
      → IsWf journal prefix (record l { escape = e; csi = c })
  flags-IsWf l e c w = record {
    named = w.named;
    partial = w.partial;
    shown = w.shown;
    short = w.short;
    records = w.records;
  }

  pub feed_byte-IsWf :
      (l : LineLogger) (b : ℕ) → IsWf journal prefix l → IsWf journal prefix (feed_byte journal l b)
  unfolding feed_byte
  feed_byte-IsWf l b w = ground (
    arith,
    w,
    flush-IsWf l w,
    byte-IsWf l b w,
    flags-IsWf l true l.csi w,
    flags-IsWf l false (b == b'[') w,
    flags-IsWf l l.escape (ltb b 0x40 || ltb 0x7e b) w,
  )
