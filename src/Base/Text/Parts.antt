-- ===== src/Base/Text/Parts.antt =====
-- What splitting a text by a byte finds.
use Prim.Native.Nat.{ℕ}
use mathlib.Core.Path.{◌≡◌, refl, ◌∙◌, ap}
use mathlib.Core.Bool.{true, false}
use mathlib.Core.List.{[], ◌∷◌, ◌++◌, append-nil, append_assoc}
use native.Mathlib.Omega.{arith}
use vkage.Base.Tests.{◌==◌}
use vkage.Base.Lists.{All}
use vkage.Base.Text.{Bytes, split_onto, split}

-- A text without the byte.
abbrev pub IsPart : ℕ → Bytes → Type 0
IsPart sep s = All (λ b. (b == sep) ≡ false) s

split_onto-part :
    (sep : ℕ) (cur s t : Bytes)
    → IsPart sep s
    → split_onto sep cur (s ++ sep ∷ t) ≡ (cur ++ s) ∷ split_onto sep [] t
unfolding split_onto
split_onto-part sep cur [] t h =
    let same : (sep == sep) ≡ true = ground arith in rw (same, append-nil) refl
split_onto-part sep cur (b ∷ s) t (n, h) = rw n (
    split_onto-part sep (cur ++ b ∷ []) s t h
    ∙ ap (λ x. x ∷ split_onto sep [] t) (append_assoc cur (b ∷ []) s))

split_onto-last : (sep : ℕ) (cur s : Bytes) → IsPart sep s → split_onto sep cur s ≡ (cur ++ s) ∷ []
unfolding split_onto
split_onto-last sep cur [] h = rw append-nil refl
split_onto-last sep cur (b ∷ s) (n, h) =
    rw n (split_onto-last sep (cur ++ b ∷ []) s h ∙ ap (λ x. x ∷ []) (append_assoc cur (b ∷ []) s))

pub split-part : (sep : ℕ) (s t : Bytes) → IsPart sep s → split (s ++ sep ∷ t) sep ≡ s ∷ split t sep
unfolding split
split-part sep s t h = split_onto-part sep [] s t h

pub split-last : (sep : ℕ) (s : Bytes) → IsPart sep s → split s sep ≡ s ∷ []
unfolding split
split-last sep s h = split_onto-last sep [] s h
