-- ===== src/Run/Tests.antt =====
-- Runs of the supervisor's code on inputs of invirtio_test.go and others, and instances of its
-- theorems.
use vkage.Base.{◌≡◌, refl, true, false, [], ◌∷◌, ◌++◌, arith, Bytes, codes, All}
use vkage.Utf8.{decode_rune, full_rune}
use vkage.Run.Logger.{LineLogger, new_line_logger, write, close, feed, feed_in, priority}
use vkage.Run.Logger.Fuel.{logger_feed-eq-feed_in}
use vkage.Run.Logger.Records.{IsLogLine, close-IsLogLine}
use vkage.Run.Logger.Passes.{write_line}

abbrev dev : LineLogger
dev = new_line_logger (codes "dev")

-- `TestLineLogger`.
abbrev guest_text : Bytes
guest_text =
    codes "boot"
    ++ (b'\r'
        ∷ b'\n'
        ∷ 0x1b
        ∷ (codes "[1mbold" ++ (0x1b ∷ (codes "[0m line" ++ 0x07 ∷ b'\n' ∷ []))))

logged : (write false dev guest_text).written ≡ codes "dev: boot\n" ∷ codes "dev: bold line\n" ∷ []
unfolding write
logged = refl

-- An overlong encoding of a 8-bit control.
overlong :
    (write true dev (b'a' ∷ 0xe0 ∷ 0x82 ∷ 0x9d ∷ codes "b\n")).written ≡ codes "<7>dev: ab\n" ∷ []
unfolding write full_rune decode_rune
overlong = refl

-- `TestLineLoggerClose`.
closed :
    (close false (write false dev (codes "done\nlast words"))).written
    ≡ codes "dev: done\n" ∷ codes "dev: last words\n" ∷ []
unfolding write close
closed = refl

close-IsLogLine_example :
    All (IsLogLine true (codes "dev")) (close true (write true dev guest_text)).written
close-IsLogLine_example = close-IsLogLine true (codes "dev") guest_text

abbrev waiting : LineLogger
waiting = record dev { pending = 0xe2 ∷ 0x82 ∷ [] }

waiting_partial : full_rune waiting.pending ≡ false
unfolding full_rune
waiting_partial = refl

logger_feed-eq-feed_in_instance :
    (feed true waiting b'A' ≡ feed_in true waiting.pending (feed true) waiting b'A')
    × (full_rune (feed true waiting b'A').pending ≡ false)
logger_feed-eq-feed_in_instance = logger_feed-eq-feed_in true waiting b'A' waiting_partial

line_kept : write true dev (codes "up" ++ b'\n' ∷ []) ≡ record dev {
  written = dev.written ++ (priority true ++ (dev.prefix ++ (codes "up" ++ b'\n' ∷ []))) ∷ [];
}
line_kept =
    write_line true dev (codes "up") (record { no_pending = refl; no_escape = refl; no_csi = refl })
      refl (omega arith) (omega arith)
