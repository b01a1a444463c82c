-- ===== src/Console/Filter/Chunks.antt =====
-- The filter's output does not depend on how the guest's output is split into reads.
use vkage.Base.{
  ℕ, zero, suc, ◌≡◌, refl, sym, ap, ◌∙◌, inl, inr, false, List, [], ◌∷◌, ◌++◌, append-nil,
  append_assoc, arith, Bytes, drop, take, Bool-cases,
}
use mathlib.Core.List.{flatten}
use vkage.Utf8.{decode_rune, full_rune}
use vkage.Console.Filter.{
  FilterState, filter_text, filter_escape, filter_string, filter_string_escape, filter_drop,
  EscapeFilter, go_to, Feed, feed_rest, text_rune, text_pending, text_in, text, in_string,
  in_escape, in_drop, feed_in, feed_fuel, feed, feed_all, write, relay,
}

-- A feed only appends to the output, and what it does else does not read it.
abbrev Appends : Feed → Type 0
Appends rec =
    (f : EscapeFilter) (b : ℕ) (o out : Bytes)
    → rec f b (o ++ out) ≡ ((rec f b out).0, o ++ (rec f b out).1)

abbrev shift : Bytes → EscapeFilter × Bytes → EscapeFilter × Bytes
shift o r = (r.0, o ++ r.1)

text_rune_appends :
    (f : EscapeFilter) (p : Bytes) (r size : ℕ) (o out : Bytes)
    → text_rune f p r size (o ++ out) ≡ shift o (text_rune f p r size out)
unfolding text_rune
text_rune_appends f p r size o out = ground (arith, append_assoc o out (take size p))

module _ (rec : Feed) (a : Appends rec) where
  feed_rest_appends :
      (rest : Bytes) (f : EscapeFilter) (o out : Bytes)
      → feed_rest rec f rest (o ++ out) ≡ shift o (feed_rest rec f rest out)
  unfolding feed_rest
  feed_rest_appends [] f o out = refl
  feed_rest_appends (c ∷ rest) f o out =
      rw (a f c o out) (feed_rest_appends rest (rec f c out).0 o (rec f c out).1)

  text_pending_appends :
      (f : EscapeFilter) (p o out : Bytes)
      → text_pending rec f p (o ++ out) ≡ shift o (text_pending rec f p out)
  unfolding text_pending
  text_pending_appends f p o out = elim (Bool-cases (full_rune p)) [
    | inr part ↦ rw part
    | inl whole ↦ rw whole (
        let d = decode_rune p in
        let t = text_rune f p d.0 d.1 out in
        rw (text_rune_appends f p d.0 d.1 o out) (feed_rest_appends (drop d.1 p) t.0 o t.1))
  ]

  text_in_appends :
      (p : Bytes) (f : EscapeFilter) (b : ℕ) (o out : Bytes)
      → text_in p rec f b (o ++ out) ≡ shift o (text_in p rec f b out)
  unfolding text_in
  text_in_appends [] f b o out =
      ground (arith, append_assoc o out (b ∷ []), text_pending_appends f (b ∷ []) o out)
  text_in_appends (q ∷ ps) f b o out = text_pending_appends f (q ∷ (ps ++ b ∷ [])) o out

  text_appends :
      (f : EscapeFilter) (b : ℕ) (o out : Bytes)
      → text rec f b (o ++ out) ≡ shift o (text rec f b out)
  unfolding text
  text_appends f b o out = text_in_appends f.pending f b o out

  feed_in_appends :
      (s : FilterState) (f : EscapeFilter) (b : ℕ) (o out : Bytes)
      → feed_in s (text rec) f b (o ++ out) ≡ shift o (feed_in s (text rec) f b out)
  unfolding feed_in in_string in_escape in_drop
  feed_in_appends filter_text f b o out = text_appends f b o out
  feed_in_appends filter_string f b o out = ground arith
  feed_in_appends filter_string_escape f b o out = ground arith
  feed_in_appends filter_escape f b o out = ground (
    arith,
    append_assoc o out (b ∷ []),
    append_assoc o out (0x1b ∷ b ∷ []),
    text_appends (go_to f filter_text) b o out,
  )
  feed_in_appends filter_drop f b o out =
      ground (arith, append_assoc o out (b ∷ []), text_appends (go_to f filter_text) b o out)

feed_fuel-Appends : (n : ℕ) → Appends (feed_fuel n)
unfolding feed_fuel
feed_fuel-Appends zero f b o out = refl
feed_fuel-Appends (suc n) f b o out =
    feed_in_appends (feed_fuel n) (feed_fuel-Appends n) f.state f b o out

feed_all_appends :
    (p : Bytes) (f : EscapeFilter) (o out : Bytes)
    → feed_all f p (o ++ out) ≡ shift o (feed_all f p out)
unfolding feed_all feed
feed_all_appends [] f o out = refl
feed_all_appends (b ∷ p) f o out =
    rw (feed_fuel-Appends 4 f b o out) (feed_all_appends p (feed f b out).0 o (feed f b out).1)

pub feed_all_split :
    (p q : Bytes) (f : EscapeFilter) (out : Bytes)
    → feed_all f (p ++ q) out ≡ feed_all (feed_all f p out).0 q (feed_all f p out).1
unfolding feed_all
feed_all_split [] q f out = refl
feed_all_split (b ∷ p) q f out = feed_all_split p q (feed f b out).0 (feed f b out).1

feed_all_from :
    (p : Bytes) (f : EscapeFilter) (o : Bytes) → feed_all f p o ≡ shift o (feed_all f p [])
feed_all_from p f o =
    let h : feed_all f p (o ++ []) ≡ shift o (feed_all f p []) = feed_all_appends p f o [] in
    rw append-nil at h

-- The output of all the reads is that of one read of all their bytes, from any state of the filter:
-- a sequence that spans reads is filtered as a whole.
pub relay-flatten :
    (reads : List Bytes) (f : EscapeFilter)
    → relay f reads ≡ (write (λ _. false) f (flatten reads)).given
unfolding relay write flatten
relay-flatten [] f = unfold feed_all in refl
relay-flatten (p ∷ ps) f =
    let (f', out) = feed_all f p [] in
    ap (λ (r : Bytes). out ++ r) (relay-flatten ps f')
    ∙ sym (
        ap (λ (r : EscapeFilter × Bytes). r.1)
          (feed_all_split p (flatten ps) f [] ∙ feed_all_from (flatten ps) f' out))
