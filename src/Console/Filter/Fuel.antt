-- ===== src/Console/Filter/Fuel.antt =====
-- The fuel of `feed` is enough: it satisfies the recursion of the source.
use vkage.Base.{
  ℕ, zero, suc, ◌+◌, ◌≤◌, ◌<◌, ◌≡◌, refl, ap, inl, inr, [], ◌∷◌, ◌++◌, arith, Bytes, length, drop,
  length-append, Bool-cases,
}
use vkage.Utf8.{decode_rune, full_rune}
use vkage.Utf8.Laws.{full_rune-false-length}
use vkage.Console.Filter.{
  FilterState, filter_text, filter_escape, filter_string, filter_string_escape, filter_drop,
  EscapeFilter, go_to, Feed, feed_rest, text_rune, text_pending, text_in, text, in_escape, in_drop,
  feed_in, feed_fuel, feed,
}
use vkage.Console.Filter.Wf.{IsWf, Keeps, feed_fuel-Keeps, rest_le, text_rune_pending, IsWf-empty}

-- Two feeds agree while fewer than `n` bytes are pending.
abbrev Agree : ℕ → Feed → Feed → Type 0
Agree n g h =
    (f : EscapeFilter) (b : ℕ) (out : Bytes) → IsWf f → length f.pending < n → g f b out ≡ h f b out

module _ (n : ℕ) (g h : Feed) (kg : Keeps g) (same : Agree n g h) where
  feed_rest_agree :
      (rest : Bytes) (f : EscapeFilter) (out : Bytes)
      → IsWf f
      → length f.pending + length rest ≤ n
      → feed_rest g f rest out ≡ feed_rest h f rest out
  unfolding feed_rest
  feed_rest_agree [] f out w l = refl
  feed_rest_agree (c ∷ rest) f out w l =
      let (w', k) = kg f c out w in
      rw (← same f c out w (omega arith))
        (feed_rest_agree rest (g f c out).0 (g f c out).1 w' (omega arith))

  text_pending_agree :
      (f : EscapeFilter) (b : ℕ) (p out : Bytes)
      → length p ≤ n
      → text_pending g f (b ∷ p) out ≡ text_pending h f (b ∷ p) out
  unfolding text_pending
  text_pending_agree f b p out l = elim (Bool-cases (full_rune (b ∷ p))) [
    | inr part ↦ rw part
    | inl whole ↦ rw whole (
        let d = decode_rune (b ∷ p) in
        let t = text_rune f (b ∷ p) d.0 d.1 out in
        let empty = text_rune_pending f (b ∷ p) d.0 d.1 out in
        feed_rest_agree (drop d.1 (b ∷ p)) t.0 t.1 (IsWf-empty t.0 empty)
          (omega (arith, rest_le p b, ap length empty)))
  ]

  text_in_agree :
      (p : Bytes) (f : EscapeFilter) (b : ℕ) (out : Bytes)
      → length p ≤ n
      → text_in p g f b out ≡ text_in p h f b out
  unfolding text_in
  text_in_agree [] f b out l = ground (arith, text_pending_agree f b [] out)
  text_in_agree (q ∷ ps) f b out l =
      text_pending_agree f q (ps ++ b ∷ []) out (omega (arith, length-append ps (b ∷ [])))

  text_agree :
      (f : EscapeFilter) (b : ℕ) (out : Bytes)
      → length f.pending ≤ n
      → text g f b out ≡ text h f b out
  unfolding text
  text_agree f b out l = text_in_agree f.pending f b out l

  feed_in_agree :
      (s : FilterState) (f : EscapeFilter) (b : ℕ) (out : Bytes)
      → length f.pending ≤ n
      → feed_in s (text g) f b out ≡ feed_in s (text h) f b out
  unfolding feed_in in_escape in_drop
  feed_in_agree filter_text f b out l = text_agree f b out l
  feed_in_agree filter_string f b out l = refl
  feed_in_agree filter_string_escape f b out l = refl
  feed_in_agree filter_escape f b out l = ground (arith, text_agree (go_to f filter_text) b out l)
  feed_in_agree filter_drop f b out l = ground (arith, text_agree (go_to f filter_text) b out l)

-- More fuel than pending bytes gives one result, whatever the fuel.
feed_fuel-Agree : (n m : ℕ) → n ≤ m → Agree n (feed_fuel n) (feed_fuel m)
unfolding feed_fuel
feed_fuel-Agree zero m le f b out w l = absurd (omega arith)
feed_fuel-Agree (suc n) zero le f b out w l = absurd (omega arith)
feed_fuel-Agree (suc n) (suc m) le f b out w l =
    feed_in_agree n (feed_fuel n) (feed_fuel m) (feed_fuel-Keeps n)
      (feed_fuel-Agree n m (omega arith)) f.state f b out (omega arith)

-- On every well-formed filter `feed` satisfies the mutual recursion of the source, with no fuel:
-- it is the switch of `feed` over the state, in which `text` feeds the bytes behind an invalid
-- sequence to `feed` itself.
pub feed-eq-feed_in :
    (f : EscapeFilter) (b : ℕ) (out : Bytes)
    → IsWf f
    → feed f b out ≡ feed_in f.state (text feed) f b out
unfolding feed feed_fuel
feed-eq-feed_in f b out w =
    feed_fuel-Agree 4 5 (omega arith) f b out w
      (omega (arith, full_rune-false-length f.pending w.partial))
