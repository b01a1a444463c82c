-- ===== src/Run/Logger/Fuel.antt =====
-- The fuel of the logger's `feed` is enough: it satisfies the recursion of the source.
use vkage.Base.{
  ℕ, zero, suc, ◌+◌, ◌≤◌, ◌<◌, ◌≡◌, refl, ap, Bool, false, [], ◌∷◌, ◌++◌, arith, Bytes, length,
  drop, length-append, length-drop, Bool-cases, inl, inr,
}
use vkage.Utf8.{decode_rune, full_rune}
use vkage.Utf8.Laws.{decode_rune_size_pos, full_rune-false-length}
use vkage.Run.Logger.{
  LineLogger, feed_rune, feed_rest, feed_pending, feed_byte, feed_in, feed_fuel, feed,
}

-- What every call keeps of `pending`: it is no whole rune, and grows by a byte at most.
abbrev Keeps : (LineLogger → ℕ → LineLogger) → Type 0
Keeps rec =
    (l : LineLogger) (b : ℕ)
    → full_rune l.pending ≡ false
    → (full_rune (rec l b).pending ≡ false) × (length (rec l b).pending ≤ length l.pending + 1)

abbrev Agree : ℕ → (LineLogger → ℕ → LineLogger) → (LineLogger → ℕ → LineLogger) → Type 0
Agree n g h =
    (l : LineLogger) (b : ℕ) → full_rune l.pending ≡ false → length l.pending < n → g l b ≡ h l b

rest_le : (p : Bytes) (b : ℕ) → length (drop (decode_rune (b ∷ p)).1 (b ∷ p)) ≤ length p
rest_le p b = omega (arith, length-drop (decode_rune (b ∷ p)).1 (b ∷ p), decode_rune_size_pos b p)

module _ (journal : Bool) where
  feed_rune_pending :
      (l : LineLogger) (p : Bytes) (r size : ℕ) → (feed_rune journal l p r size).pending ≡ []
  unfolding feed_rune
  feed_rune_pending l p r size = ground arith

  feed_byte_pending : (l : LineLogger) (b : ℕ) → (feed_byte journal l b).pending ≡ l.pending
  unfolding feed_byte
  feed_byte_pending l b = ground arith

  no_rune : (l : LineLogger) → l.pending ≡ [] → full_rune l.pending ≡ false
  unfolding full_rune
  no_rune l e = rw e

  feed_rest-Keeps :
      (rec : LineLogger → ℕ → LineLogger)
      → Keeps rec
      → (rest : Bytes) (l : LineLogger) → full_rune l.pending ≡ false
      → (full_rune (feed_rest journal rec l rest).pending ≡ false)
        × (length (feed_rest journal rec l rest).pending ≤ length l.pending + length rest)
  unfolding feed_rest
  feed_rest-Keeps rec k [] l w = (w, omega arith)
  feed_rest-Keeps rec k (c ∷ rest) l w =
      let (w', n) = k l c w in
      let (w'', n') = feed_rest-Keeps rec k rest (rec l c) w' in (w'', omega arith)

  feed_pending-Keeps :
      (rec : LineLogger → ℕ → LineLogger)
      → Keeps rec
      → (l : LineLogger) (b : ℕ) (p : Bytes)
      → (full_rune (feed_pending journal rec l (b ∷ p)).pending ≡ false)
        × (length (feed_pending journal rec l (b ∷ p)).pending ≤ length p + 1)
  unfolding feed_pending
  feed_pending-Keeps rec k l b p = elim (Bool-cases (full_rune (b ∷ p))) [
    | inr part ↦ rw part (part, omega arith)
    | inl whole ↦ rw whole (
        let d = decode_rune (b ∷ p) in
        let t = feed_rune journal l (b ∷ p) d.0 d.1 in
        let empty = feed_rune_pending l (b ∷ p) d.0 d.1 in
        let (w, n) = feed_rest-Keeps rec k (drop d.1 (b ∷ p)) t (no_rune t empty) in
        (w, omega (arith, rest_le p b, ap length empty)))
  ]

  feed_in-Keeps :
      (rec : LineLogger → ℕ → LineLogger)
      → Keeps rec
      → (p : Bytes) (l : LineLogger) (b : ℕ) → l.pending ≡ p
      → full_rune p ≡ false
      → (full_rune (feed_in journal p rec l b).pending ≡ false)
        × (length (feed_in journal p rec l b).pending ≤ length p + 1)
  unfolding feed_in
  feed_in-Keeps rec k [] l b e w =
      ground (arith, feed_pending-Keeps rec k l b [], feed_byte_pending l b)
  feed_in-Keeps rec k (q ∷ ps) l b e w =
      let (w', n) = feed_pending-Keeps rec k l q (ps ++ b ∷ []) in
      (w', omega (arith, length-append ps (b ∷ [])))

  feed_fuel-Keeps : (n : ℕ) → Keeps (feed_fuel journal n)
  unfolding feed_fuel
  feed_fuel-Keeps zero l b w = (w, omega arith)
  feed_fuel-Keeps (suc n) l b w =
      feed_in-Keeps (feed_fuel journal n) (feed_fuel-Keeps n) l.pending l b refl w

  module _ (n : ℕ) (g h : LineLogger → ℕ → LineLogger) (kg : Keeps g) (same : Agree n g h) where
    feed_rest_agree :
        (rest : Bytes) (l : LineLogger)
        → full_rune l.pending ≡ false
        → length l.pending + length rest ≤ n
        → feed_rest journal g l rest ≡ feed_rest journal h l rest
    unfolding feed_rest
    feed_rest_agree [] l w le = refl
    feed_rest_agree (c ∷ rest) l w le =
        let (w', k) = kg l c w in
        rw (← same l c w (omega arith)) (feed_rest_agree rest (g l c) w' (omega arith))

    feed_pending_agree :
        (l : LineLogger) (b : ℕ) (p : Bytes)
        → length p ≤ n
        → feed_pending journal g l (b ∷ p) ≡ feed_pending journal h l (b ∷ p)
    unfolding feed_pending
    feed_pending_agree l b p le = elim (Bool-cases (full_rune (b ∷ p))) [
      | inr part ↦ rw part
      | inl whole ↦ rw whole (
          let d = decode_rune (b ∷ p) in
          let t = feed_rune journal l (b ∷ p) d.0 d.1 in
          let empty = feed_rune_pending l (b ∷ p) d.0 d.1 in
          feed_rest_agree (drop d.1 (b ∷ p)) t (no_rune t empty)
            (omega (arith, rest_le p b, ap length empty)))
    ]

    feed_in_agree :
        (p : Bytes) (l : LineLogger) (b : ℕ)
        → length p ≤ n
        → feed_in journal p g l b ≡ feed_in journal p h l b
    unfolding feed_in
    feed_in_agree [] l b le = ground (arith, feed_pending_agree l b [])
    feed_in_agree (q ∷ ps) l b le =
        feed_pending_agree l q (ps ++ b ∷ []) (omega (arith, length-append ps (b ∷ [])))

  feed_fuel-Agree : (n m : ℕ) → n ≤ m → Agree n (feed_fuel journal n) (feed_fuel journal m)
  unfolding feed_fuel
  feed_fuel-Agree zero m le l b w k = absurd (omega arith)
  feed_fuel-Agree (suc n) zero le l b w k = absurd (omega arith)
  feed_fuel-Agree (suc n) (suc m) le l b w k =
      feed_in_agree n (feed_fuel journal n) (feed_fuel journal m) (feed_fuel-Keeps n)
        (feed_fuel-Agree n m (omega arith)) l.pending l b (omega arith)

-- While `pending` holds no whole rune, `feed` satisfies the recursion of the source, with no fuel,
-- and such a `pending` is what it leaves behind.
pub logger_feed-eq-feed_in :
    (journal : Bool) (l : LineLogger) (b : ℕ)
    → full_rune l.pending ≡ false
    → (feed journal l b ≡ feed_in journal l.pending (feed journal) l b)
      × (full_rune (feed journal l b).pending ≡ false)
unfolding feed feed_fuel
logger_feed-eq-feed_in journal l b w = (
  feed_fuel-Agree journal 4 5 (omega arith) l b w
      (omega (arith, full_rune-false-length l.pending w)),
  (feed_fuel-Keeps journal 4 l b w).0,
)
