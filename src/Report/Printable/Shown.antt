-- ===== src/Report/Printable/Shown.antt =====
-- What `printable` lets through.
use vkage.Base.{
  ℕ, zero, suc, ◌-◌, ◌≤◌, ◌<◌, ◌≡◌, refl, sym, ap, ◌∙◌, true, false, [], ◌∷◌, ◌++◌, Bytes, take,
  drop, ltb, length, length-take, length-drop, All, arith, Bool-cases, inl, inr, ◌≢◌, ◌⊎◌, List,
}
use mathlib.Core.Path.{subst}
use vkage.Utf8.{decode_rune, runes}
use vkage.Utf8.Laws.{decode_rune_prefix, decode_rune_size_pos, decode_rune_size_le}
use vkage.Utf8.Runes.{runes-cons, runes-ascii, runes-IsRune}
use vkage.Report.Printable.{is_dropped, printable_onto, printable}

-- A byte that is a rune of its own and no error is ASCII.
decode_rune_single :
    (b : ℕ) (s : Bytes)
    → (decode_rune (b ∷ s)).1 ≤ 1
    → is_dropped (decode_rune (b ∷ s)).0 ≡ false
    → (b < 0x80) × (decode_rune (b ∷ s) ≡ (b, 1))
unfolding decode_rune is_dropped
decode_rune_single b [] h d = ground arith
decode_rune_single b (b1 ∷ []) h d = ground arith
decode_rune_single b (b1 ∷ b2 ∷ []) h d = ground arith
decode_rune_single b (b1 ∷ b2 ∷ b3 ∷ s) h d = ground arith

-- A rune that is shown is decoded alike in front of other text.
runes_shown :
    (b : ℕ) (s x : Bytes)
    → is_dropped (decode_rune (b ∷ s)).0 ≡ false
    → runes (take (decode_rune (b ∷ s)).1 (b ∷ s) ++ x) ≡ decode_rune (b ∷ s) ∷ runes x
runes_shown b s x d = elim (Bool-cases (ltb 1 (decode_rune (b ∷ s)).1)) [
  | inl test ↦
      let many : 1 < (decode_rune (b ∷ s)).1 = ground arith in
      let k = (decode_rune (b ∷ s)).1 in
      let len : length (take k (b ∷ s)) ≡ k =
        omega (arith, length-take k (b ∷ s), decode_rune_size_le (b ∷ s)) in
      runes-IsRune (take k (b ∷ s)) x (record {
        decodes = λ y.
            decode_rune_prefix (b ∷ s) y many ∙ ap (λ n. ((decode_rune (b ∷ s)).0, n)) (sym len);
        multibyte = rw len many;
      })
      ∙ ap (λ n. ((decode_rune (b ∷ s)).0, n) ∷ runes x) len
  | inr test ↦
      let few : (decode_rune (b ∷ s)).1 ≤ 1 = ground arith in
      let (low, one) = decode_rune_single b s few d in rw one (runes-ascii b x low)
]

IsShown : Bytes → Type 0
IsShown s = All (λ (rune : ℕ × ℕ). is_dropped rune.0 ≡ false) (runes s)

take_front : (k : ℕ) (a p : Bytes) → length a ≡ k → take k (a ++ p) ≡ a
take_front zero [] p h = refl
take_front zero (b ∷ a) p h = absurd (omega (arith, h))
take_front (suc k) [] p h = absurd (omega (arith, h))
take_front (suc k) (b ∷ a) p h = ap (◌∷◌ b) (take_front k a p (omega (arith, h)))

drop_front : (k : ℕ) (a p : Bytes) → length a ≡ k → drop k (a ++ p) ≡ p
drop_front zero [] p h = refl
drop_front zero (b ∷ a) p h = absurd (omega (arith, h))
drop_front (suc k) [] p h = absurd (omega (arith, h))
drop_front (suc k) (b ∷ a) p h = drop_front k a p (omega (arith, h))

drop_pos : (k b : ℕ) (s : Bytes) → 0 < k → drop k (b ∷ s) ≡ drop (k - 1) s
drop_pos zero b s h = absurd (omega (arith, h))
drop_pos (suc k) b s h = let e : suc k - 1 ≡ k = omega arith in rw e refl

printable-dropped :
    (b : ℕ) (s : Bytes)
    → is_dropped (decode_rune (b ∷ s)).0 ≡ true
    → printable (b ∷ s) ≡ printable (drop ((decode_rune (b ∷ s)).1 - 1) s)
unfolding printable printable_onto
printable-dropped b s d =
    rw (runes-cons b s, d, drop_pos (decode_rune (b ∷ s)).1 b s (decode_rune_size_pos b s)) refl

printable_kept :
    (b : ℕ) (s : Bytes)
    → is_dropped (decode_rune (b ∷ s)).0 ≡ false
    → printable (b ∷ s)
      ≡ take (decode_rune (b ∷ s)).1 (b ∷ s) ++ printable (drop ((decode_rune (b ∷ s)).1 - 1) s)
unfolding printable printable_onto
printable_kept b s d =
    rw (runes-cons b s, d, drop_pos (decode_rune (b ∷ s)).1 b s (decode_rune_size_pos b s)) refl

abbrev IsStable : Bytes → Type 0
IsStable p = IsShown p × (printable p ≡ p)

-- A rune that is shown, in front of a text that is.
IsStable-rune :
    (b : ℕ) (s p : Bytes)
    → is_dropped (decode_rune (b ∷ s)).0 ≡ false
    → IsStable p
    → IsStable (take (decode_rune (b ∷ s)).1 (b ∷ s) ++ p)
unfolding IsShown printable printable_onto
IsStable-rune b s p d (shown, stable) =
    let k = (decode_rune (b ∷ s)).1 in
    let len : length (take k (b ∷ s)) ≡ k =
      omega (arith, length-take k (b ∷ s), decode_rune_size_le (b ∷ s)) in
    rw
      (
        runes_shown b s p d,
        d,
        take_front k (take k (b ∷ s)) p len,
        drop_front k (take k (b ∷ s)) p len,
      )
      ((refl, shown), ap (λ q. take k (b ∷ s) ++ q) stable)

-- By the length of the text.
printable_fuel : (n : ℕ) (s : Bytes) → length s ≤ n → IsStable (printable s)
printable_fuel n [] h = unfold printable in unfold runes in unfold IsShown in (tt, refl)
printable_fuel zero (b ∷ s) h = absurd (omega arith)
printable_fuel (suc n) (b ∷ s) h =
    let k = (decode_rune (b ∷ s)).1 in
    let ih = printable_fuel n (drop (k - 1) s) (omega (arith, length-drop (k - 1) s)) in
    elim (Bool-cases (is_dropped (decode_rune (b ∷ s)).0)) [
      | inl gone ↦ subst IsStable (sym (printable-dropped b s gone)) ih
      | inr kept ↦ subst IsStable (sym (printable_kept b s kept)) (IsStable-rune b s _ kept ih)
    ]

-- A rune that is no error, and no control character but a tab or a newline.
abbrev pub IsPlain : ℕ → Type 0
IsPlain r = (r ≢ 0xfffd) × ((r ≡ 9) ⊎ (r ≡ 10) ⊎ ((0x20 ≤ r) × (r < 0x7f)) ⊎ (0x9f < r))

is_dropped-IsPlain : (r : ℕ) → is_dropped r ≡ false → IsPlain r
unfolding is_dropped
is_dropped-IsPlain r d = ground arith

all-IsPlain :
    (rs : List (ℕ × ℕ))
    → All (λ (rune : ℕ × ℕ). is_dropped rune.0 ≡ false) rs
    → All (λ (rune : ℕ × ℕ). IsPlain rune.0) rs
all-IsPlain [] h = tt
all-IsPlain (r ∷ rs) (d, h) = (is_dropped-IsPlain r.0 d, all-IsPlain rs h)

-- Of any bytes, what status prints has only plain runes: no errors, and of the control characters,
-- those from 0x7f to 0x9f included, only tabs and newlines; and to print it again changes nothing.
pub printable-shown :
    (s : Bytes)
    → All (λ (rune : ℕ × ℕ). IsPlain rune.0) (runes (printable s))
      × (printable (printable s) ≡ printable s)
unfolding IsShown
printable-shown s =
    let (shown, stable) = printable_fuel (length s) s (omega arith) in
    (all-IsPlain (runes (printable s)) shown, stable)
