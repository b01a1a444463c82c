-- ===== src/Report/Printable.antt =====
-- `printable` of tools/cmd/invirtio/status.go.
pub mod Shown
use vkage.Base.{
  ℕ, Bool, true, false, not, ◌&&◌, ◌||◌, List, [], ◌∷◌, ◌++◌, Bytes, take, drop, ◌==◌, ltb, leb,
  if◌then◌else◌,
}
use vkage.Utf8.{rune_error, runes}

-- The runes that are left out.
unfoldable pub is_dropped : ℕ → Bool
is_dropped r =
    r == rune_error
    || ltb r 0x20 && not (r == b'\t') && not (r == b'\n')
    || leb 0x7f r && leb r 0x9f

-- The loop over the runes of a text, each with its size. A valid rune is written as the bytes that it
-- was read of, since UTF-8 has one form of each rune.
unfoldable pub printable_onto : List (ℕ × ℕ) → Bytes → Bytes
unfolding is_dropped
printable_onto [] s = []
printable_onto ((r, size) ∷ rs) s =
    let rest = printable_onto rs (drop size s) in if is_dropped r then rest else take size s ++ rest

unfoldable pub printable : Bytes → Bytes
unfolding printable_onto
printable s = printable_onto (runes s) s
