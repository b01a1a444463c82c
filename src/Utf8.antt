-- ===== src/Utf8.antt =====
-- Go's unicode/utf8, as far as tools/cmd/invirtio uses it: `DecodeRune`, `FullRune`, and a range
-- loop over a string. The tables of the package are written out as tests on the first byte.
pub mod Laws
pub mod Runes
use vkage.Base.{
  ℕ, zero, suc, ◌+◌, ◌-◌, ◌*◌, Bool, true, false, ◌&&◌, ◌||◌, List, [], ◌∷◌, ltb, leb, ◌==◌,
  if◌then◌else◌, Bytes, length, drop,
}

-- `utf8.RuneError`, U+FFFD.
abbrev pub rune_error : ℕ
rune_error = 0xfffd

abbrev pub within : ℕ → ℕ → ℕ → Bool
within lo hi b = leb lo b && leb b hi

-- A continuation byte.
abbrev pub continues : ℕ → Bool
continues = within 0x80 0xbf

-- The second bytes that may follow a first byte of a sequence of three, or of four.
abbrev pub second3 : ℕ → ℕ → Bool
second3 b0 b1 =
    if b0 == 0xe0
    then within 0xa0 0xbf b1
    else if b0 == 0xed
    then within 0x80 0x9f b1
    else continues b1

abbrev pub second4 : ℕ → ℕ → Bool
second4 b0 b1 =
    if b0 == 0xf0
    then within 0x90 0xbf b1
    else if b0 == 0xf4
    then within 0x80 0x8f b1
    else continues b1

abbrev bad : ℕ × ℕ
bad = (rune_error, 1)

decode2 : ℕ → Bytes → ℕ × ℕ
decode2 b0 [] = bad
decode2 b0 (b1 ∷ _) = if continues b1 then ((b0 - 0xc0) * 64 + (b1 - 0x80), 2) else bad

decode3 : ℕ → Bytes → ℕ × ℕ
decode3 b0 [] = bad
decode3 b0 (b1 ∷ []) = bad
decode3 b0 (b1 ∷ b2 ∷ _) =
    if second3 b0 b1 && continues b2
    then ((b0 - 0xe0) * 4096 + (b1 - 0x80) * 64 + (b2 - 0x80), 3)
    else bad

decode4 : ℕ → Bytes → ℕ × ℕ
decode4 b0 [] = bad
decode4 b0 (b1 ∷ []) = bad
decode4 b0 (b1 ∷ b2 ∷ []) = bad
decode4 b0 (b1 ∷ b2 ∷ b3 ∷ _) =
    if second4 b0 b1 && continues b2 && continues b3
    then ((b0 - 0xf0) * 262144 + (b1 - 0x80) * 4096 + (b2 - 0x80) * 64 + (b3 - 0x80), 4)
    else bad

-- The first rune of the bytes and its size; size 1 with `rune_error` is an invalid byte.
unfoldable pub decode_rune : Bytes → ℕ × ℕ
unfolding decode2 decode3 decode4
decode_rune [] = (rune_error, 0)
decode_rune (b0 ∷ rest) =
    if ltb b0 0x80
    then (b0, 1)
    else if ltb b0 0xc2 || ltb 0xf4 b0
    then bad
    else if ltb b0 0xe0
    then decode2 b0 rest
    else if ltb b0 0xf0
    then decode3 b0 rest
    else decode4 b0 rest

full2 : Bytes → Bool
full2 [] = false
full2 (b1 ∷ _) = true

full3 : ℕ → Bytes → Bool
full3 b0 [] = false
full3 b0 (b1 ∷ []) = if second3 b0 b1 then false else true
full3 b0 (b1 ∷ b2 ∷ _) = true

full4 : ℕ → Bytes → Bool
full4 b0 [] = false
full4 b0 (b1 ∷ []) = if second4 b0 b1 then false else true
full4 b0 (b1 ∷ b2 ∷ []) = if second4 b0 b1 && continues b2 then false else true
full4 b0 (b1 ∷ b2 ∷ b3 ∷ _) = true

-- Whether the bytes begin with a whole rune; an invalid encoding counts as one.
unfoldable pub full_rune : Bytes → Bool
unfolding full2 full3 full4
full_rune [] = false
full_rune (b0 ∷ rest) =
    if ltb b0 0xc2 || ltb 0xf4 b0
    then true
    else if ltb b0 0xe0
    then full2 rest
    else if ltb b0 0xf0
    then full3 b0 rest
    else full4 b0 rest

-- The runes that a range loop visits, each with its size. Every round takes at least one byte.
pub runes_fuel : ℕ → Bytes → List (ℕ × ℕ)
runes_fuel zero s = []
runes_fuel (suc n) [] = []
runes_fuel (suc n) (b ∷ s) =
    let (r, size) = decode_rune (b ∷ s) in (r, size) ∷ runes_fuel n (drop (size - 1) s)

unfoldable pub runes : Bytes → List (ℕ × ℕ)
unfolding runes_fuel
runes s = runes_fuel (length s) s
