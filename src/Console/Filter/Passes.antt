-- ===== src/Console/Filter/Passes.antt =====
-- Clean text passes the filter as it is.
use vkage.Base.{
  ℕ, ◌≤◌, ◌<◌, ◌≡◌, ◌≢◌, refl, ap, ◌∙◌, Bool, true, false, List, [], ◌∷◌, ◌++◌, append-nil,
  append_assoc, arith, Bytes, length, take, drop, length-append,
}
use vkage.Utf8.{decode_rune, full_rune}
use vkage.Utf8.Laws.{full_rune-false_first}
use vkage.Console.Filter.{
  EscapeFilter, opens_string, designates, feed_fuel, feed, feed_all, feed_rest, text_rune,
  filter_text, write, initial, relay,
}
use vkage.Console.Filter.Wf.{initial-IsWf}
use vkage.Console.Filter.Chunks.{feed_all_split}
use vkage.Console.Filter.Clean.{IsClean, nil, ascii, escape, rune}
use vkage.Console.Filter.Terminal.{relay-IsClean}

feed_ascii :
    (b : ℕ) (out : Bytes) → b < 0x80 → b ≢ 0x1b → feed initial b out ≡ (initial, out ++ b ∷ [])
unfolding feed feed_fuel
feed_ascii b out h n = ground arith

feed_escape :
    (b : ℕ) (out : Bytes)
    → 0x20 ≤ b
    → b < 0x7f
    → opens_string b ≡ false
    → (b ≤ 0x2f → designates b ≡ true)
    → feed_all initial (0x1b ∷ b ∷ []) out ≡ (initial, out ++ 0x1b ∷ b ∷ [])
unfolding feed_all feed feed_fuel
feed_escape b out h k o g = ground arith

abbrev holding : Bytes → EscapeFilter
holding q = record { state = filter_text; pending = q }

feed_partial :
    (q : Bytes) (b : ℕ) (out : Bytes)
    → full_rune (q ++ b ∷ []) ≡ false
    → feed (holding q) b out ≡ (holding (q ++ b ∷ []), out)
unfolding feed feed_fuel
feed_partial [] b out h = let low = full_rune-false_first b [] h in ground arith
feed_partial (c ∷ q) b out h = ground arith

take_all : (s : Bytes) → take (length s) s ≡ s
take_all [] = refl
take_all (b ∷ s) = ap (◌∷◌ b) (take_all s)

drop_all : (s : Bytes) → drop (length s) s ≡ []
drop_all [] = refl
drop_all (b ∷ s) = drop_all s

feed_last :
    (c : ℕ) (q : Bytes) (b : ℕ) (out : Bytes) {r : ℕ}
    → full_rune (c ∷ (q ++ b ∷ [])) ≡ true
    → decode_rune (c ∷ (q ++ b ∷ [])) ≡ (r, length (c ∷ (q ++ b ∷ [])))
    → 0xa0 ≤ r
    → feed (holding (c ∷ q)) b out ≡ (initial, out ++ c ∷ (q ++ b ∷ []))
unfolding feed feed_fuel feed_rest text_rune
feed_last c q b out {r} full d h =
    let s = c ∷ (q ++ b ∷ []) in
    rw (full, d, drop_all s) (ground (arith, take_all s, length-append q (b ∷ [])))

-- The decoder's first bytes are no whole rune before the last one.
cut2 :
    (b c : ℕ) {r : ℕ}
    → decode_rune (b ∷ c ∷ []) ≡ (r, 2)
    → (full_rune (b ∷ []) ≡ false) × (full_rune (b ∷ c ∷ []) ≡ true)
unfolding decode_rune full_rune
cut2 b c d = ground arith

cut3 :
    (b c d : ℕ) {r : ℕ}
    → decode_rune (b ∷ c ∷ d ∷ []) ≡ (r, 3)
    → (full_rune (b ∷ []) ≡ false)
      × (full_rune (b ∷ c ∷ []) ≡ false)
      × (full_rune (b ∷ c ∷ d ∷ []) ≡ true)
unfolding decode_rune full_rune
cut3 b c d e = ground arith

cut4 :
    (b c d e : ℕ) {r : ℕ}
    → decode_rune (b ∷ c ∷ d ∷ e ∷ []) ≡ (r, 4)
    → (full_rune (b ∷ []) ≡ false)
      × (full_rune (b ∷ c ∷ []) ≡ false)
      × (full_rune (b ∷ c ∷ d ∷ []) ≡ false)
      × (full_rune (b ∷ c ∷ d ∷ e ∷ []) ≡ true)
unfolding decode_rune full_rune
cut4 b c d e h = ground arith

no_cut5 : (b c d e x : ℕ) (s : Bytes) → (decode_rune (b ∷ c ∷ d ∷ e ∷ x ∷ s)).1 ≤ 4
unfolding decode_rune
no_cut5 b c d e x s = ground arith

feed_rune :
    (seq : Bytes) {r : ℕ} (out : Bytes)
    → decode_rune seq ≡ (r, length seq)
    → 1 < length seq
    → 0xa0 ≤ r
    → feed_all initial seq out ≡ (initial, out ++ seq)
unfolding feed_all
feed_rune [] out d l h = absurd (omega arith)
feed_rune (b ∷ []) out d l h = absurd (omega arith)
feed_rune (b ∷ b1 ∷ []) out d l h =
    let (p, full) = cut2 b b1 d in rw (feed_partial [] b out p, feed_last b [] b1 out full d h)
feed_rune (b ∷ b1 ∷ b2 ∷ []) out d l h =
    let (p, q, full) = cut3 b b1 b2 d in
    rw (
      feed_partial [] b out p,
      feed_partial (b ∷ []) b1 out q,
      feed_last b (b1 ∷ []) b2 out full d h,
    )
feed_rune (b ∷ b1 ∷ b2 ∷ b3 ∷ []) out d l h =
    let (p, q, q', full) = cut4 b b1 b2 b3 d in
    rw (
      feed_partial [] b out p,
      feed_partial (b ∷ []) b1 out q,
      feed_partial (b ∷ b1 ∷ []) b2 out q',
      feed_last b (b1 ∷ b2 ∷ []) b3 out full d h,
    )
feed_rune (b ∷ b1 ∷ b2 ∷ b3 ∷ b4 ∷ s) out d l h =
    absurd (omega (arith, no_cut5 b b1 b2 b3 b4 s, ap (λ (t : ℕ × ℕ). t.1) d))

feed_clean : {s : Bytes} (out : Bytes) → IsClean s → feed_all initial s out ≡ (initial, out ++ s)
unfolding feed_all
feed_clean out nil = rw append-nil
feed_clean out (ascii {b} {s} h n c) =
    feed_all_split (b ∷ []) s initial out
    ∙ rw (feed_ascii b out h n) (feed_clean (out ++ b ∷ []) c ∙ rw append_assoc)
feed_clean out (escape {b} {s} h k o g c) =
    feed_all_split (0x1b ∷ b ∷ []) s initial out
    ∙ rw (feed_escape b out h k o g) (feed_clean (out ++ 0x1b ∷ b ∷ []) c ∙ rw append_assoc)
feed_clean out (rune {r} {seq} {s} i h c e) =
    let d : decode_rune seq ≡ (r, length seq) = rw append-nil at (i.decodes []) in
    rw e (
      feed_all_split seq s initial out
      ∙ rw (feed_rune seq out d i.multibyte h) (feed_clean (out ++ seq) c ∙ rw append_assoc))

-- Clean text passes as it is, and leaves the filter as it was: text of ASCII bytes other than ESC, of
-- whole runes from U+00A0 on, and of ESC followed by a printable byte that opens no string and, where it
-- is an intermediate byte, is one that designates a character set.
pub write-IsClean :
    {s : Bytes} (w : Bytes → Bool)
    → IsClean s
    → ((write w initial s).given ≡ s) × ((write w initial s).filter ≡ initial)
unfolding write
write-IsClean {s} w c = rw (feed_clean [] c) (ground arith)

-- Filtering twice is filtering once.
pub relay_idem :
    (reads : List Bytes) → relay initial (relay initial reads ∷ []) ≡ relay initial reads
unfolding relay
relay_idem reads =
    rw (append-nil, (write-IsClean (λ _. false) (relay-IsClean reads initial initial-IsWf)).0)
