-- ===== src/Console/Filter/Wf.antt =====
-- The well-formedness of the filter's state, which every byte keeps.
use vkage.Base.{
  ℕ, zero, suc, ◌+◌, ◌≤◌, ◌≡◌, refl, ap, ◌⊎◌, inl, inr, Bool, true, false, [], ◌∷◌, ◌++◌, arith,
  Bytes, length, drop, length-append, length-drop, Bool-cases, ltb, ◌==◌, ◌≢◌,
}
use vkage.Utf8.{decode_rune, full_rune}
use vkage.Utf8.Laws.{decode_rune_size_pos}
use vkage.Console.Filter.{
  FilterState, filter_text, filter_escape, filter_string, filter_string_escape, filter_drop,
  EscapeFilter, go_to, Feed, feed_rest, text_rune, text_pending, text_in, text, in_string,
  in_escape, in_drop, feed_in, feed_fuel, feed, feed_all, initial,
}

-- `pending` is the start of a rune and not a whole one, and it is empty outside text.
pub record IsWf (f : EscapeFilter) : Type 0 where
  pub partial : full_rune f.pending ≡ false
  pub only_text : (f.state ≡ filter_text) ⊎ (f.pending ≡ [])

pub text_rune_pending :
    (f : EscapeFilter) (p : Bytes) (r size : ℕ) (out : Bytes)
    → (text_rune f p r size out).0.pending ≡ []
unfolding text_rune
text_rune_pending f p r size out = ground arith

pub IsWf-empty : (f : EscapeFilter) → f.pending ≡ [] → IsWf f
unfolding full_rune
IsWf-empty f e = record { partial = rw e; only_text = inr e }

-- What a nested call keeps: the state well formed, and at most one more pending byte.
abbrev pub Keeps : Feed → Type 0
Keeps rec =
    (f : EscapeFilter) (b : ℕ) (out : Bytes)
    → IsWf f
    → IsWf (rec f b out).0 × (length (rec f b out).0.pending ≤ length f.pending + 1)

pub feed_rest-Keeps :
    (rec : Feed)
    → Keeps rec
    → (rest : Bytes) (f : EscapeFilter) (out : Bytes) → IsWf f
    → IsWf (feed_rest rec f rest out).0
      × (length (feed_rest rec f rest out).0.pending ≤ length f.pending + length rest)
unfolding feed_rest
feed_rest-Keeps rec k [] f out w = (w, omega arith)
feed_rest-Keeps rec k (c ∷ rest) f out w =
    let (w', l) = k f c out w in
    let (w'', l') = feed_rest-Keeps rec k rest (rec f c out).0 (rec f c out).1 w' in
    (w'', omega arith)

pub rest_le : (p : Bytes) (b : ℕ) → length (drop (decode_rune (b ∷ p)).1 (b ∷ p)) ≤ length p
rest_le p b = omega (arith, length-drop (decode_rune (b ∷ p)).1 (b ∷ p), decode_rune_size_pos b p)

text_pending-Keeps :
    (rec : Feed)
    → Keeps rec
    → (f : EscapeFilter) (b : ℕ) (p out : Bytes) → f.state ≡ filter_text
    → IsWf (text_pending rec f (b ∷ p) out).0
      × (length (text_pending rec f (b ∷ p) out).0.pending ≤ length p + 1)
unfolding text_pending
text_pending-Keeps rec k f b p out e = elim (Bool-cases (full_rune (b ∷ p))) [
  | inr part ↦ rw part (record { partial = part; only_text = inl e }, omega arith)
  | inl whole ↦ rw whole (
      let d = decode_rune (b ∷ p) in
      let t = text_rune f (b ∷ p) d.0 d.1 out in
      let empty = text_rune_pending f (b ∷ p) d.0 d.1 out in
      let (w, l) = feed_rest-Keeps rec k (drop d.1 (b ∷ p)) t.0 t.1 (IsWf-empty t.0 empty) in
      (w, omega (arith, rest_le p b, ap length empty)))
]

text_in-Keeps :
    (rec : Feed)
    → Keeps rec
    → (p : Bytes) (f : EscapeFilter) (b : ℕ) (out : Bytes) → f.pending ≡ p
    → f.state ≡ filter_text
    → IsWf (text_in p rec f b out).0 × (length (text_in p rec f b out).0.pending ≤ length p + 1)
unfolding text_in
text_in-Keeps rec k [] f b out e s = elim (Bool-cases (ltb b 0x80)) [
  | inr high ↦ rw high (text_pending-Keeps rec k f b [] out s)
  | inl low ↦ rw low (elim (Bool-cases (b == 0x1b)) [
    | inl esc ↦ rw esc (IsWf-empty (go_to f filter_escape) e, omega (arith, ap length e))
    | inr other ↦ rw other (IsWf-empty f e, omega (arith, ap length e))
  ])
]
text_in-Keeps rec k (q ∷ ps) f b out e s =
    let (w, l) = text_pending-Keeps rec k f q (ps ++ b ∷ []) out s in
    (w, omega (arith, l, length-append ps (b ∷ [])))

text-Keeps :
    (rec : Feed)
    → Keeps rec
    → (f : EscapeFilter) (b : ℕ) (out : Bytes) → f.state ≡ filter_text
    → IsWf (text rec f b out).0 × (length (text rec f b out).0.pending ≤ length f.pending + 1)
unfolding text
text-Keeps rec k f b out s = text_in-Keeps rec k f.pending f b out refl s

-- Outside text `pending` is empty, and a move to any state keeps it so.
moved : (f : EscapeFilter) (s : FilterState) → f.pending ≡ [] → IsWf (go_to f s)
moved f s e = IsWf-empty (go_to f s) e

module _ (rec : Feed) (k : Keeps rec) (f : EscapeFilter) (b : ℕ) (out : Bytes)
    (e : f.pending ≡ []) where
  abbrev Goes : EscapeFilter × Bytes → Type 0
  Goes r = IsWf r.0 × (length r.0.pending ≤ length f.pending + 1)

  goes : (s : FilterState) (o : Bytes) → Goes (go_to f s, o)
  goes s o = (moved f s e, omega arith)

  stays : (o : Bytes) → Goes (f, o)
  stays o = (IsWf-empty f e, omega arith)

  in_string-Keeps : (flag : Bool) → Goes (in_string flag f b out)
  unfolding in_string
  in_string-Keeps flag =
      ground (arith, goes filter_text out, goes filter_string out, goes filter_string_escape out)

  in_escape-Keeps : Goes (in_escape (text rec) f b out)
  unfolding in_escape
  in_escape-Keeps = ground (
    arith,
    stays out,
    stays (out ++ b ∷ []),
    goes filter_text (out ++ b ∷ []),
    goes filter_string out,
    goes filter_drop out,
    goes filter_text (out ++ 0x1b ∷ b ∷ []),
    text-Keeps rec k (go_to f filter_text) b out refl,
  )

  in_drop-Keeps : Goes (in_drop (text rec) f b out)
  unfolding in_drop
  in_drop-Keeps = ground (
    arith,
    stays out,
    stays (out ++ b ∷ []),
    goes filter_text (out ++ b ∷ []),
    goes filter_escape out,
    goes filter_text out,
    text-Keeps rec k (go_to f filter_text) b out refl,
  )

pub empty_outside : (f : EscapeFilter) → IsWf f → f.state ≢ filter_text → f.pending ≡ []
empty_outside f w n = elim w.only_text [ inl t ↦ absurd (n t) | inr e ↦ e ]

feed_in-Keeps :
    (rec : Feed)
    → Keeps rec
    → (s : FilterState) (f : EscapeFilter) (b : ℕ) (out : Bytes) → f.state ≡ s
    → IsWf f
    → IsWf (feed_in s (text rec) f b out).0
      × (length (feed_in s (text rec) f b out).0.pending ≤ length f.pending + 1)
unfolding feed_in
feed_in-Keeps rec k filter_text f b out e w = text-Keeps rec k f b out e
feed_in-Keeps rec k filter_string f b out e w =
    in_string-Keeps rec k f b out (empty_outside f w (λ t. cc)) false
feed_in-Keeps rec k filter_string_escape f b out e w =
    in_string-Keeps rec k f b out (empty_outside f w (λ t. cc)) true
feed_in-Keeps rec k filter_escape f b out e w =
    in_escape-Keeps rec k f b out (empty_outside f w (λ t. cc))
feed_in-Keeps rec k filter_drop f b out e w =
    in_drop-Keeps rec k f b out (empty_outside f w (λ t. cc))

pub feed_fuel-Keeps : (n : ℕ) → Keeps (feed_fuel n)
unfolding feed_fuel
feed_fuel-Keeps zero f b out w = (w, omega arith)
feed_fuel-Keeps (suc n) f b out w =
    feed_in-Keeps (feed_fuel n) (feed_fuel-Keeps n) f.state f b out refl w

pub feed-Keeps : Keeps feed
unfolding feed
feed-Keeps = feed_fuel-Keeps 4

pub initial-IsWf : IsWf initial
unfolding full_rune
initial-IsWf = record { partial = refl; only_text = inl refl }

-- Whatever bytes are fed, the filter holds back at most the start of one rune, and none outside
-- text.
pub feed_all-IsWf :
    (p : Bytes) (f : EscapeFilter) (out : Bytes) → IsWf f → IsWf (feed_all f p out).0
unfolding feed_all
feed_all-IsWf [] f out w = w
feed_all-IsWf (b ∷ p) f out w =
    feed_all-IsWf p (feed f b out).0 (feed f b out).1 (feed-Keeps f b out w).0
