-- ===== src/Run/Logger/Passes.antt =====
-- A line of printable text is logged as it is.
use vkage.Base.{
  ℕ, ◌+◌, ◌≤◌, ◌<◌, ◌≡◌, refl, ap, ◌∙◌, Bool, false, [], ◌∷◌, ◌++◌, append-nil, append_assoc, arith,
  Bytes, length, All, length-append,
}
use vkage.Run.Logger.{LineLogger, max_log_line, priority, feed_fuel, feed, write}

abbrev pub IsPrintable : Bytes → Type 0
IsPrintable = All (λ b. (0x20 ≤ b) × (b < 0x7f))

-- Between sequences.
pub record IsIdle (l : LineLogger) : Type 0 where
  pub no_pending : l.pending ≡ []
  pub no_escape : l.escape ≡ false
  pub no_csi : l.csi ≡ false

module _ (journal : Bool) where
  feed_printable :
      (l : LineLogger) (b : ℕ)
      → IsIdle l
      → (0x20 ≤ b) × (b < 0x7f)
      → length l.line < max_log_line
      → feed journal l b ≡ record l { line = l.line ++ b ∷ [] }
  unfolding feed feed_fuel
  feed_printable l b i h k = ground arith

  feed_newline :
      (l : LineLogger)
      → IsIdle l
      → feed journal l b'\n' ≡ record l {
        line = [];
        written = l.written ++ (priority journal ++ (l.prefix ++ (l.line ++ b'\n' ∷ []))) ∷ [];
      }
  unfolding feed feed_fuel
  feed_newline l i = ground arith

  write_printable :
      (t : Bytes) (l : LineLogger)
      → IsIdle l
      → IsPrintable t
      → length l.line + length t ≤ max_log_line
      → write journal l t ≡ record l { line = l.line ++ t }
  unfolding write
  write_printable [] l i h k = rw append-nil
  write_printable (b ∷ t) l i (hb, ht) k = rw (feed_printable l b i hb (omega arith)) (
      write_printable t (record l { line = l.line ++ b ∷ [] })
        (record { no_pending = i.no_pending; no_escape = i.no_escape; no_csi = i.no_csi }) ht
        (omega (arith, length-append l.line (b ∷ [])))
      ∙ rw append_assoc)

  write_split :
      (p q : Bytes) (l : LineLogger)
      → write journal l (p ++ q) ≡ write journal (write journal l p) q
  unfolding write
  write_split [] q l = refl
  write_split (b ∷ p) q l = write_split p q (feed journal l b)

-- Printable text of at most 1024 bytes and a newline, sent between lines and sequences, is logged
-- as one line, unchanged, and nothing else of the logger changes; other reads may split the text.
pub write_line :
    (journal : Bool) (l : LineLogger) (t : Bytes)
    → IsIdle l
    → l.line ≡ []
    → IsPrintable t
    → length t ≤ max_log_line
    → write journal l (t ++ b'\n' ∷ []) ≡ record l {
      written = l.written ++ (priority journal ++ (l.prefix ++ (t ++ b'\n' ∷ []))) ∷ [];
    }
unfolding write
write_line journal l t i e h k =
    write_split journal t (b'\n' ∷ []) l
    ∙ rw (write_printable journal t l i h (omega (arith, ap length e))) (
        feed_newline journal (record l { line = l.line ++ t })
          (record { no_pending = i.no_pending; no_escape = i.no_escape; no_csi = i.no_csi })
        ∙ ground arith)
