-- ===== src/Run/Logger.antt =====
-- `lineLogger` of tools/cmd/invirtio/run.go, which writes the guest's console to the journal. The
-- field `written` holds what `out` has been given, one element for each write, latest last. `feed`
-- calls itself for the bytes behind a sequence; the calls take fuel, and `feed` gives them 4.
pub mod Fuel
pub mod Lines
pub mod Records
pub mod Passes
use vkage.Base.{
  ℕ, zero, suc, ◌+◌, Bool, true, false, not, ◌&&◌, ◌||◌, List, [], ◌∷◌, ◌++◌, ltb, leb, ◌==◌,
  if◌then◌else◌, Bytes, codes, length, take, drop,
}
use vkage.Utf8.{rune_error, decode_rune, full_rune, within}

pub record LineLogger : Type 0 where
  pub prefix : Bytes
  pub line : Bytes
  pub pending : Bytes
  pub escape : Bool
  pub csi : Bool
  pub written : List Bytes

abbrev pub max_log_line : ℕ
max_log_line = 1024

-- `journalStdout` is set for the whole run.
module _ (journal_stdout : Bool) where
  abbrev pub priority : Bytes
  priority = if journal_stdout then codes "<7>" else []

  abbrev pub flush : LineLogger → LineLogger
  flush l = record l {
    written = l.written ++ (priority ++ (l.prefix ++ (l.line ++ b'\n' ∷ []))) ∷ [];
    line = [];
  }

  abbrev pub flush_if : Bool → LineLogger → LineLogger
  flush_if b l = if b then flush l else l

  -- The part of `feed` that a whole rune at the start of `pending` runs.
  pub feed_rune : LineLogger → Bytes → ℕ → ℕ → LineLogger
  feed_rune l pending r size =
      if (not (r == rune_error) || ltb 1 size) && ltb 0x9f r
      then (let l' = flush_if (ltb max_log_line (length l.line + size)) l in
          record l' { line = l'.line ++ take size pending; pending = [] })
      else record l { pending = [] }

  pub feed_rest : (LineLogger → ℕ → LineLogger) → LineLogger → Bytes → LineLogger
  feed_rest rec l [] = l
  feed_rest rec l (c ∷ rest) = feed_rest rec (rec l c) rest

  pub feed_pending : (LineLogger → ℕ → LineLogger) → LineLogger → Bytes → LineLogger
  unfolding feed_rune feed_rest
  feed_pending rec l pending =
      if not (full_rune pending)
      then record l { pending = pending }
      else (let (r, size) = decode_rune pending in
          feed_rest rec (feed_rune l pending r size) (drop size pending))

  -- The switch of `feed` on a byte that belongs to no longer sequence.
  pub feed_byte : LineLogger → ℕ → LineLogger
  feed_byte l b =
      if l.csi
      then record l { csi = ltb b 0x40 || ltb 0x7e b }
      else if l.escape
      then record l { escape = false; csi = b == b'[' }
      else if b == 0x1b
      then record l { escape = true }
      else if b == b'\n'
      then flush l
      else if b == b'\t' || (leb 0x20 b && ltb b 0x7f)
      then (let l' = flush_if (length l.line == max_log_line) l in
          record l' { line = l'.line ++ b ∷ [] })
      else l

  pub feed_in : Bytes → (LineLogger → ℕ → LineLogger) → LineLogger → ℕ → LineLogger
  unfolding feed_pending feed_byte
  feed_in [] rec l b =
      if leb 0x80 b && not l.escape && not l.csi then feed_pending rec l (b ∷ []) else feed_byte l b
  feed_in (p ∷ ps) rec l b = feed_pending rec l (p ∷ (ps ++ b ∷ []))

  -- Without fuel the byte is lost; `Fuel` shows that 4 is enough for every state of the logger.
  unfoldable pub feed_fuel : ℕ → LineLogger → ℕ → LineLogger
  unfolding feed_in
  feed_fuel zero l b = l
  feed_fuel (suc n) l b = feed_in l.pending (feed_fuel n) l b

  unfoldable pub feed : LineLogger → ℕ → LineLogger
  unfolding feed_fuel
  feed = feed_fuel 4

  unfoldable pub write : LineLogger → Bytes → LineLogger
  unfolding feed
  write l [] = l
  write l (b ∷ p) = write (feed l b) p

  close_line : Bytes → LineLogger → LineLogger
  close_line [] l = l
  close_line (b ∷ line) l = flush l

  -- `len(l.line) > 0` is the second clause of `close_line`.
  unfoldable pub close : LineLogger → LineLogger
  unfolding close_line
  close l = close_line l.line l

abbrev pub new_line_logger : Bytes → LineLogger
new_line_logger name = record {
  prefix = name ++ codes ": ";
  line = [];
  pending = [];
  escape = false;
  csi = false;
  written = [];
}
