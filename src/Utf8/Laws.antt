-- ===== src/Utf8/Laws.antt =====
-- What the decoder's clients rely on.
use vkage.Base.{
  ℕ, ◌≤◌, ◌<◌, ◌≡◌, false, [], ◌∷◌, ◌++◌, arith, Bytes, length, length-take, take, All, append-nil,
}
use vkage.Utf8.{rune_error, decode_rune, full_rune}

-- Two or more bytes that are one valid rune `r`, whatever follows them.
pub record IsRune (r : ℕ) (seq : Bytes) : Type 0 where
  pub decodes : (x : Bytes) → decode_rune (seq ++ x) ≡ (r, length seq)
  pub multibyte : 1 < length seq

pub decode_rune_size_pos : (b : ℕ) (s : Bytes) → 0 < (decode_rune (b ∷ s)).1
unfolding decode_rune
decode_rune_size_pos b [] = ground arith
decode_rune_size_pos b (b1 ∷ []) = ground arith
decode_rune_size_pos b (b1 ∷ b2 ∷ []) = ground arith
decode_rune_size_pos b (b1 ∷ b2 ∷ b3 ∷ s) = ground arith

pub decode_rune_size_le : (s : Bytes) → (decode_rune s).1 ≤ length s
unfolding decode_rune
decode_rune_size_le [] = ground arith
decode_rune_size_le (b ∷ []) = ground arith
decode_rune_size_le (b ∷ b1 ∷ []) = ground arith
decode_rune_size_le (b ∷ b1 ∷ b2 ∷ []) = ground arith
decode_rune_size_le (b ∷ b1 ∷ b2 ∷ b3 ∷ s) = ground arith

pub decode_rune_size_four : (s : Bytes) → (decode_rune s).1 ≤ 4
unfolding decode_rune
decode_rune_size_four [] = ground arith
decode_rune_size_four (b ∷ []) = ground arith
decode_rune_size_four (b ∷ b1 ∷ []) = ground arith
decode_rune_size_four (b ∷ b1 ∷ b2 ∷ []) = ground arith
decode_rune_size_four (b ∷ b1 ∷ b2 ∷ b3 ∷ s) = ground arith

-- A rune of more than one byte decodes alike with other bytes behind it.
pub decode_rune_prefix :
    (s x : Bytes)
    → 1 < (decode_rune s).1
    → decode_rune (take (decode_rune s).1 s ++ x) ≡ decode_rune s
unfolding decode_rune
decode_rune_prefix [] x h = ground arith
decode_rune_prefix (b ∷ []) x h = ground arith
decode_rune_prefix (b ∷ b1 ∷ []) x h = ground arith
decode_rune_prefix (b ∷ b1 ∷ b2 ∷ []) x h = ground arith
decode_rune_prefix (b ∷ b1 ∷ b2 ∷ b3 ∷ s) x h = ground arith

-- A rune of more than one byte is not ASCII.
pub decode_rune_ge : (s : Bytes) → 1 < (decode_rune s).1 → 0x80 ≤ (decode_rune s).0
unfolding decode_rune
decode_rune_ge [] h = ground arith
decode_rune_ge (b ∷ []) h = ground arith
decode_rune_ge (b ∷ b1 ∷ []) h = ground arith
decode_rune_ge (b ∷ b1 ∷ b2 ∷ []) h = ground arith
decode_rune_ge (b ∷ b1 ∷ b2 ∷ b3 ∷ s) h = ground arith

-- Bytes that are not yet a whole rune are at most three.
pub full_rune-false-length : (s : Bytes) → full_rune s ≡ false → length s ≤ 3
unfolding full_rune
full_rune-false-length [] h = ground arith
full_rune-false-length (b ∷ []) h = ground arith
full_rune-false-length (b ∷ b1 ∷ []) h = ground arith
full_rune-false-length (b ∷ b1 ∷ b2 ∷ []) h = ground arith
full_rune-false-length (b ∷ b1 ∷ b2 ∷ b3 ∷ s) h = ground arith

-- A byte that is not ASCII and decodes alone is invalid.
pub decode_rune_invalid :
    (b : ℕ) (s : Bytes)
    → 0x80 ≤ b
    → (decode_rune (b ∷ s)).1 ≡ 1
    → (decode_rune (b ∷ s)).0 ≡ rune_error
unfolding decode_rune
decode_rune_invalid b [] h e = ground arith
decode_rune_invalid b (b1 ∷ []) h e = ground arith
decode_rune_invalid b (b1 ∷ b2 ∷ []) h e = ground arith
decode_rune_invalid b (b1 ∷ b2 ∷ b3 ∷ s) h e = ground arith

-- The bytes of a rune that the decoder accepts.
pub take-IsRune :
    (s : Bytes) → 1 < (decode_rune s).1 → IsRune (decode_rune s).0 (take (decode_rune s).1 s)
take-IsRune s h =
    let l : length (take (decode_rune s).1 s) ≡ (decode_rune s).1 =
      omega (arith, length-take (decode_rune s).1 s, decode_rune_size_le s) in
    record { decodes = λ x. rw l (decode_rune_prefix s x h); multibyte = omega arith }

-- The start of a rune that is not whole is not ASCII.
pub full_rune-false_first : (b : ℕ) (s : Bytes) → full_rune (b ∷ s) ≡ false → 0x80 ≤ b
unfolding full_rune
full_rune-false_first b s h = ground arith

-- Every byte of a rune of two or more bytes is above ASCII.
decode_rune_high :
    (seq : Bytes) {r : ℕ}
    → decode_rune seq ≡ (r, length seq)
    → 1 < length seq
    → All (λ b. 0x80 ≤ b) seq
unfolding decode_rune
decode_rune_high [] d h = tt
decode_rune_high (b ∷ []) d h = absurd (omega arith)
decode_rune_high (b ∷ b1 ∷ []) d h = ground arith
decode_rune_high (b ∷ b1 ∷ b2 ∷ []) d h = ground arith
decode_rune_high (b ∷ b1 ∷ b2 ∷ b3 ∷ []) d h = ground arith
decode_rune_high (b ∷ b1 ∷ b2 ∷ b3 ∷ b4 ∷ s) d h = absurd (ground arith)

pub IsRune-high : {r : ℕ} {seq : Bytes} → IsRune r seq → All (λ b. 0x80 ≤ b) seq
IsRune-high {seq} i = decode_rune_high seq (rw append-nil at (i.decodes [])) i.multibyte
