-- ===== src/Console/Filter/Clean.antt =====
-- The output of the filter is made of pieces that no terminal takes as a string control.
use vkage.Base.{
  ℕ, zero, suc, ◌≤◌, ◌<◌, ◌≡◌, ◌≢◌, sym, inl, inr, true, false, [], ◌∷◌, ◌++◌, append-nil,
  append_assoc, arith, Bytes, take, drop, Bool-cases,
}
use vkage.Utf8.{decode_rune, full_rune}
use vkage.Utf8.Laws.{
  IsRune, decode_rune_size_pos, decode_rune_ge, decode_rune_invalid, take-IsRune,
  full_rune-false_first,
}
use vkage.Console.Filter.{
  FilterState, filter_text, filter_escape, filter_string, filter_string_escape, filter_drop,
  EscapeFilter, go_to, opens_string, designates, Feed, feed_rest, text_rune, text_pending, text_in,
  text, in_string, in_escape, in_drop, feed_in, feed_fuel, feed, feed_all,
}
use vkage.Console.Filter.Wf.{
  IsWf, Keeps, feed_fuel-Keeps, feed-Keeps, text_rune_pending, IsWf-empty,
}

-- ASCII bytes other than ESC, ESC with a byte that neither opens a string nor is an intermediate
-- byte but of a character set designation, and whole runes above the 8-bit controls.
pub data IsClean : Bytes → Type 0 where
  nil : IsClean []
  ascii : {b : ℕ} {s : Bytes} → b < 0x80 → b ≢ 0x1b → IsClean s → IsClean (b ∷ s)
  escape :
      {b : ℕ} {s : Bytes}
      → 0x20 ≤ b
      → b < 0x7f
      → opens_string b ≡ false
      → (b ≤ 0x2f → designates b ≡ true)
      → IsClean s
      → IsClean (0x1b ∷ b ∷ s)
  rune : {r : ℕ} {seq s t : Bytes} → IsRune r seq → 0xa0 ≤ r → IsClean s → t ≡ seq ++ s → IsClean t

pub IsClean-append : {s t : Bytes} → IsClean s → IsClean t → IsClean (s ++ t)
IsClean-append nil d = d
IsClean-append (ascii h n c) d = ascii h n (IsClean-append c d)
IsClean-append (escape h k o g c) d = escape h k o g (IsClean-append c d)
IsClean-append {t} (rune {seq} {s = s'} i h c e) d =
    rune i h (IsClean-append c d) (rw e (append_assoc seq s' t))

byte-IsClean : (out : Bytes) (b : ℕ) → IsClean out → b < 0x80 → b ≢ 0x1b → IsClean (out ++ b ∷ [])
byte-IsClean out b c h n = IsClean-append c (ascii h n nil)

escape-IsClean :
    (out : Bytes) (b : ℕ)
    → IsClean out
    → 0x20 ≤ b
    → b < 0x7f
    → opens_string b ≡ false
    → (b ≤ 0x2f → designates b ≡ true)
    → IsClean (out ++ 0x1b ∷ b ∷ [])
escape-IsClean out b c h k o g = IsClean-append c (escape h k o g nil)

rune-IsClean :
    (out p : Bytes)
    → IsClean out
    → 1 < (decode_rune p).1
    → 0xa0 ≤ (decode_rune p).0
    → IsClean (out ++ take (decode_rune p).1 p)
rune-IsClean out p c h k =
    IsClean-append c (rune (take-IsRune p h) k nil (sym (append-nil (take (decode_rune p).1 p))))

abbrev Cleans : Feed → Type 0
Cleans rec =
    (f : EscapeFilter) (b : ℕ) (out : Bytes) → IsWf f → IsClean out → IsClean (rec f b out).1

text_rune-IsClean :
    (f : EscapeFilter) (b : ℕ) (p out : Bytes)
    → 0x80 ≤ b
    → IsClean out
    → IsClean (text_rune f (b ∷ p) (decode_rune (b ∷ p)).0 (decode_rune (b ∷ p)).1 out).1
unfolding text_rune
text_rune-IsClean f b p out h c = ground (
  arith,
  decode_rune_invalid b p,
  decode_rune_size_pos b p,
  decode_rune_ge (b ∷ p),
  rune-IsClean out (b ∷ p) c,
)

module _ (rec : Feed) (k : Keeps rec) (cl : Cleans rec) where
  feed_rest-IsClean :
      (rest : Bytes) (f : EscapeFilter) (out : Bytes)
      → IsWf f
      → IsClean out
      → IsClean (feed_rest rec f rest out).1
  unfolding feed_rest
  feed_rest-IsClean [] f out w c = c
  feed_rest-IsClean (b ∷ rest) f out w c =
      feed_rest-IsClean rest (rec f b out).0 (rec f b out).1 (k f b out w).0 (cl f b out w c)

  text_pending-IsClean :
      (f : EscapeFilter) (b : ℕ) (p out : Bytes)
      → 0x80 ≤ b
      → IsClean out
      → IsClean (text_pending rec f (b ∷ p) out).1
  unfolding text_pending
  text_pending-IsClean f b p out h c = elim (Bool-cases (full_rune (b ∷ p))) [
    | inr part ↦ rw part c
    | inl whole ↦ rw whole (
        let d = decode_rune (b ∷ p) in
        let t = text_rune f (b ∷ p) d.0 d.1 out in
        let empty = text_rune_pending f (b ∷ p) d.0 d.1 out in
        feed_rest-IsClean (drop d.1 (b ∷ p)) t.0 t.1 (IsWf-empty t.0 empty)
          (text_rune-IsClean f b p out h c))
  ]

  text_in-IsClean :
      (p : Bytes) (f : EscapeFilter) (b : ℕ) (out : Bytes)
      → full_rune p ≡ false
      → IsClean out
      → IsClean (text_in p rec f b out).1
  unfolding text_in
  text_in-IsClean [] f b out w c =
      ground (arith, text_pending-IsClean f b [] out, byte-IsClean out b c, c)
  text_in-IsClean (q ∷ ps) f b out w c =
      text_pending-IsClean f q (ps ++ b ∷ []) out (full_rune-false_first q ps w) c

  text-IsClean :
      (f : EscapeFilter) (b : ℕ) (out : Bytes)
      → full_rune f.pending ≡ false
      → IsClean out
      → IsClean (text rec f b out).1
  unfolding text
  text-IsClean f b out w c = text_in-IsClean f.pending f b out w c

  feed_in-IsClean :
      (s : FilterState) (f : EscapeFilter) (b : ℕ) (out : Bytes)
      → full_rune f.pending ≡ false
      → IsClean out
      → IsClean (feed_in s (text rec) f b out).1
  unfolding feed_in in_string in_escape in_drop
  feed_in-IsClean filter_text f b out w c = text-IsClean f b out w c
  feed_in-IsClean filter_string f b out w c = ground (arith, c)
  feed_in-IsClean filter_string_escape f b out w c = ground (arith, c)
  feed_in-IsClean filter_escape f b out w c = ground (
    arith,
    c,
    byte-IsClean out b c,
    escape-IsClean out b c,
    text-IsClean (go_to f filter_text) b out w c,
  )
  feed_in-IsClean filter_drop f b out w c =
      ground (arith, c, byte-IsClean out b c, text-IsClean (go_to f filter_text) b out w c)

feed_fuel-Cleans : (n : ℕ) → Cleans (feed_fuel n)
unfolding feed_fuel
feed_fuel-Cleans zero f b out w c = c
feed_fuel-Cleans (suc n) f b out w c =
    feed_in-IsClean (feed_fuel n) (feed_fuel-Keeps n) (feed_fuel-Cleans n) f.state f b out w.partial
      c

pub feed_all-IsClean :
    (p : Bytes) (f : EscapeFilter) (out : Bytes)
    → IsWf f
    → IsClean out
    → IsClean (feed_all f p out).1
unfolding feed_all feed
feed_all-IsClean [] f out w c = c
feed_all-IsClean (b ∷ p) f out w c =
    feed_all-IsClean p (feed f b out).0 (feed f b out).1 (feed-Keeps f b out w).0
      (feed_fuel-Cleans 4 f b out w c)
