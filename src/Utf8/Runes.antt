-- ===== src/Utf8/Runes.antt =====
-- The range loop over a string, piece by piece.
use vkage.Base.{
  ℕ, zero, suc, ◌-◌, ◌≤◌, ◌<◌, ◌≡◌, refl, ap, [], ◌∷◌, ◌++◌, arith, Bytes, length, drop,
  length-drop,
}
use vkage.Utf8.{decode_rune, runes_fuel, runes}
use vkage.Utf8.Laws.{IsRune}

runes_fuel_enough :
    (n m : ℕ) (s : Bytes) → length s ≤ n → length s ≤ m → runes_fuel n s ≡ runes_fuel m s
unfolding runes_fuel
runes_fuel_enough zero zero [] h k = refl
runes_fuel_enough zero (suc m) [] h k = refl
runes_fuel_enough (suc n) zero [] h k = refl
runes_fuel_enough (suc n) (suc m) [] h k = refl
runes_fuel_enough zero m (b ∷ s) h k = absurd (omega arith)
runes_fuel_enough (suc n) zero (b ∷ s) h k = absurd (omega arith)
runes_fuel_enough (suc n) (suc m) (b ∷ s) h k =
    let size = (decode_rune (b ∷ s)).1 in
    ap (◌∷◌ (decode_rune (b ∷ s))) (
      runes_fuel_enough n m (drop (size - 1) s) (omega (arith, length-drop (size - 1) s))
        (omega (arith, length-drop (size - 1) s)))

-- The loop takes the first rune, and goes on behind it.
pub runes-cons :
    (b : ℕ) (s : Bytes)
    → runes (b ∷ s) ≡ decode_rune (b ∷ s) ∷ runes (drop ((decode_rune (b ∷ s)).1 - 1) s)
unfolding runes runes_fuel
runes-cons b s =
    let k = (decode_rune (b ∷ s)).1 - 1 in
    ap (◌∷◌ (decode_rune (b ∷ s))) (
      runes_fuel_enough (length s) (length (drop k s)) (drop k s) (omega (arith, length-drop k s))
        (omega arith))

decode_rune_ascii : (b : ℕ) (s : Bytes) → b < 0x80 → decode_rune (b ∷ s) ≡ (b, 1)
unfolding decode_rune
decode_rune_ascii b s h = ground arith

pub runes-ascii : (b : ℕ) (s : Bytes) → b < 0x80 → runes (b ∷ s) ≡ (b, 1) ∷ runes s
runes-ascii b s h = rw (runes-cons, decode_rune_ascii b s h)

drop_all : (s t : Bytes) → drop (length s) (s ++ t) ≡ t
drop_all [] t = refl
drop_all (b ∷ s) t = drop_all s t

pub runes-IsRune :
    {r : ℕ} (seq s : Bytes) → IsRune r seq → runes (seq ++ s) ≡ (r, length seq) ∷ runes s
runes-IsRune [] s i = absurd (omega (arith, i.multibyte))
runes-IsRune (b ∷ seq) s i =
    let one : suc (length seq) - 1 ≡ length seq = omega arith in
    rw (runes-cons, i.decodes s, one, drop_all seq s)
