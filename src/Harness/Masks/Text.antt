-- ===== src/Harness/Masks/Text.antt =====
-- The text of printed groups: how it splits and that nothing of it is trimmed.
use vkage.Base.{
  ℕ, zero, suc, ◌/◌, ◌%◌, ◌<◌, ◌≡◌, refl, ◌∙◌, ap, true, false, ◌&&◌, ◌||◌, List, [], ◌∷◌, map,
  Bytes, leb, arith, All, All-append, split,
}
use vkage.Base.Text.Parts.{IsPart, split-part, split-last}
use vkage.Report.Memory.{is_space}
use vkage.Harness.Masks.{
  hex_digit, hex_onto, hex8, join_groups, trim_space, trim_left, trim_right, with_byte,
}

-- A byte of a group.
abbrev IsHex : ℕ → Type 0
IsHex b = (leb b'0' b && leb b b'9' || leb b'a' b && leb b b'f') ≡ true

hex_digit-IsHex : (d : ℕ) → d < 16 → IsHex (hex_digit d)
unfolding hex_digit
hex_digit-IsHex d h = ground arith

hex_onto-IsHex : (k n : ℕ) (out : Bytes) → All IsHex out → All IsHex (hex_onto k n out)
unfolding hex_onto
hex_onto-IsHex zero n out h = h
hex_onto-IsHex (suc k) n out h =
    hex_onto-IsHex k (n / 16) (hex_digit (n % 16) ∷ out) (hex_digit-IsHex (n % 16) (omega arith), h)

IsHex-IsPart : (s : Bytes) → All IsHex s → IsPart b',' s
IsHex-IsPart [] h = tt
IsHex-IsPart (b ∷ s) (p, h) = (ground arith, IsHex-IsPart s h)

hex8-IsHex : (n : ℕ) → All IsHex (hex8 n)
unfolding hex8
hex8-IsHex n = hex_onto-IsHex 8 n [] tt

-- Parts without a comma are what their join splits into.
pub split-join_groups :
    (g : Bytes) (gs : List Bytes)
    → All (IsPart b',') (g ∷ gs)
    → split (join_groups (g ∷ gs)) b',' ≡ g ∷ gs
unfolding join_groups
split-join_groups g [] (p, h) = split-last b',' g p
split-join_groups g (f ∷ gs) (p, h) =
    split-part b',' g (join_groups (f ∷ gs)) p ∙ ap (◌∷◌ g) (split-join_groups f gs h)

hex8-IsPart : (vs : List ℕ) → All (IsPart b',') (map hex8 vs)
hex8-IsPart [] = tt
hex8-IsPart (v ∷ vs) = (IsHex-IsPart (hex8 v) (hex8-IsHex v), hex8-IsPart vs)

pub split_groups :
    (v : ℕ) (vs : List ℕ) → split (join_groups (map hex8 (v ∷ vs))) b',' ≡ map hex8 (v ∷ vs)
split_groups v vs = split-join_groups (hex8 v) (map hex8 vs) (hex8-IsPart (v ∷ vs))

abbrev IsText : ℕ → Type 0
IsText b = is_space b ≡ false

IsHex-IsText : (s : Bytes) → All IsHex s → All IsText s
unfolding is_space
IsHex-IsText [] h = tt
IsHex-IsText (b ∷ s) (p, h) = (ground arith, IsHex-IsText s h)

pub join-IsText : (vs : List ℕ) → All IsText (join_groups (map hex8 vs))
unfolding join_groups is_space
join-IsText [] = tt
join-IsText (v ∷ []) = IsHex-IsText (hex8 v) (hex8-IsHex v)
join-IsText (v ∷ u ∷ vs) =
    All-append IsText (hex8 v) (b',' ∷ join_groups (map hex8 (u ∷ vs)))
      (IsHex-IsText (hex8 v) (hex8-IsHex v)) (refl, join-IsText (u ∷ vs))

trim_right-IsText : (s : Bytes) → All IsText s → trim_right s ≡ s
unfolding trim_right with_byte
trim_right-IsText [] h = refl
trim_right-IsText (b ∷ []) (p, h) = rw p refl
trim_right-IsText (b ∷ c ∷ s) (p, h) = rw (trim_right-IsText (c ∷ s) h) refl

pub trim_space-IsText : (s : Bytes) → All IsText s → trim_space s ≡ s
unfolding trim_space trim_left
trim_space-IsText [] h = refl
trim_space-IsText (b ∷ s) (p, h) = rw p (trim_right-IsText (b ∷ s) (p, h))
