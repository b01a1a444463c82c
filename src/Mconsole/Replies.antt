-- ===== src/Mconsole/Replies.antt =====
-- What becomes of a guest's replies.
use vkage.Base.{
  ℕ, zero, suc, ◌+◌, ◌-◌, ◌≤◌, ◌<◌, min, ◌≡◌, refl, sym, ap, ◌∙◌, Bool, true, false, List, [], ◌∷◌,
  ◌++◌, append_assoc, none, some, Bytes, length, take, drop, length-append, ◌==◌, ltb, leb,
  if◌then◌else◌, All, arith, ◌≢◌, Bool-cases, inl, inr,
}
use mathlib.Core.Path.{subst}
use vkage.Mconsole.{
  max_data, max_reply, put_uint32, uint32, trim_nul, parse_reply, read_reply, Read, datagram,
  Answer, refused, answered, finished, round, replies, connected, request,
}
use vkage.Mconsole.Space.{trim_space, IsTrimmed, trim_space-IsTrimmed}

-- The reply of a guest's kernel: a NUL behind the text is counted in its length.
abbrev pub reply_bytes : ℕ → ℕ → Bytes → Bytes
reply_bytes error more text =
    put_uint32 error ++ (put_uint32 more ++ (put_uint32 (length text + 1) ++ (text ++ 0 ∷ [])))

take_all : (n : ℕ) (s : Bytes) → length s ≤ n → take n s ≡ s
take_all zero [] h = refl
take_all zero (b ∷ s) h = absurd (omega arith)
take_all (suc n) [] h = refl
take_all (suc n) (b ∷ s) h = ap (◌∷◌ b) (take_all n s (omega arith))

abbrev IsText : ℕ → Type 0
IsText b = (b == 0) ≡ false

trim_nul-text : (s : Bytes) → All IsText s → trim_nul (s ++ 0 ∷ []) ≡ s
unfolding trim_nul
trim_nul-text [] h = refl
trim_nul-text (b ∷ s) (n, h) = rw (trim_nul-text s h, n) (ground arith)

uint32-put_uint32 : (n : ℕ) (s : Bytes) → n < 4294967296 → uint32 (put_uint32 n ++ s) ≡ n
unfolding uint32
uint32-put_uint32 n s h = omega arith

length-reply_bytes :
    (error more : ℕ) (text : Bytes) → length (reply_bytes error more text) ≡ length text + 13
length-reply_bytes error more text = omega (arith, length-append text (0 ∷ []))

-- A reply whose length says that it has all the bytes behind the header.
parse_reply_whole :
    (buf text : Bytes) (error more n : ℕ)
    → uint32 buf ≡ error
    → uint32 (drop 4 buf) ≡ more
    → uint32 (drop 8 buf) ≡ n
    → length buf ≡ n + 12
    → length (drop 12 buf) ≤ n
    → trim_nul (drop 12 buf) ≡ text
    → parse_reply buf ≡ some (record { error = error; more = more; text = text })
unfolding parse_reply
parse_reply_whole buf text error more n e m s l d t =
    let long : ltb (length buf) 12 ≡ false = ground arith in
    let size : min (12 + n) (n + 12) - 12 ≡ n = omega arith in
    rw (e, m, s, long, l, size, take_all n (drop 12 buf) d, t) refl

parse_reply-reply_bytes :
    (error more : ℕ) (text : Bytes)
    → error < 4294967296
    → more < 4294967296
    → length text < max_data
    → All IsText text
    → parse_reply (reply_bytes error more text)
      ≡ some (record { error = error; more = more; text = text })
parse_reply-reply_bytes error more text he hm ht h =
    parse_reply_whole (reply_bytes error more text) text error more (length text + 1)
      (uint32-put_uint32 error _ he) (uint32-put_uint32 more _ hm)
      (uint32-put_uint32 (length text + 1) _ (omega arith))
      (omega (arith, length-reply_bytes error more text))
      (omega (arith, length-append text (0 ∷ []))) (trim_nul-text text h)

-- A reply that fits is read back.
read_reply-reply_bytes :
    (error more : ℕ) (text : Bytes)
    → error < 4294967296
    → more < 4294967296
    → length text < max_data
    → All IsText text
    → read_reply (reply_bytes error more text)
      ≡ some (record { error = error; more = more; text = text })
unfolding read_reply
read_reply-reply_bytes error more text he hm ht h =
    ap parse_reply (
      take_all 524 (reply_bytes error more text)
        (omega (arith, length-reply_bytes error more text)))
    ∙ parse_reply-reply_bytes error more text he hm ht h

-- The reads of a guest's replies: each but the last says that more follow.
abbrev pub all_replies : {E : Type 0} → ℕ → List Bytes → Bytes → List (Read E)
all_replies error [] last = datagram (reply_bytes error 0 last) ∷ []
all_replies error (t ∷ ts) last = datagram (reply_bytes error 1 t) ∷ all_replies error ts last

abbrev pub flat : List Bytes → Bytes
flat [] = []
flat (t ∷ ts) = t ++ flat ts

abbrev pub IsChunk : Bytes → Type 0
IsChunk t = (length t < max_data) × All IsText t

module _ {E : Type 0} where
  round_last :
      (first : Bool) (kept sent error : ℕ) (out text : Bytes) (again : ℕ → Bytes → Answer E)
      → (if first then sent else kept) ≡ error
      → length (out ++ text) ≤ max_reply
      → round first kept out (some (record { error = sent; more = 0; text = text })) again
        ≡ finished error (out ++ text)
  unfolding round
  round_last first kept sent error out text again e l =
      let fits : ltb max_reply (length (out ++ text)) ≡ false = ground arith in rw (fits, e) refl

  round_more :
      (first : Bool) (kept sent error : ℕ) (out text : Bytes) (again : ℕ → Bytes → Answer E)
      → (if first then sent else kept) ≡ error
      → length (out ++ text) ≤ max_reply
      → round first kept out (some (record { error = sent; more = 1; text = text })) again
        ≡ again error (out ++ text)
  unfolding round
  round_more first kept sent error out text again e l =
      let fits : ltb max_reply (length (out ++ text)) ≡ false = ground arith in rw (fits, e) refl

  -- Every error that a later reply carries is passed over.
  replies-all_replies :
      (first : Bool) (kept sent error : ℕ) (out : Bytes) (ts : List Bytes) (last : Bytes)
      → (if first then sent else kept) ≡ error
      → sent < 4294967296
      → All IsChunk ts
      → IsChunk last
      → length (out ++ (flat ts ++ last)) ≤ max_reply
      → replies {E = E} first kept out (all_replies sent ts last)
        ≡ finished error (out ++ (flat ts ++ last))
  unfolding replies
  replies-all_replies first kept sent error out [] last e h cs (n, c) l =
      rw (read_reply-reply_bytes sent 0 last h (omega arith) n c)
        (round_last first kept sent error out last (λ x y. replies false x y []) e l)
  replies-all_replies first kept sent error out (t ∷ ts) last e h ((n, c), cs) hl l =
      let l' : length (out ++ t) ≤ max_reply = omega (
        arith,
        l,
        length-append out (t ++ flat ts ++ last),
        length-append out t,
        length-append t (flat ts ++ last),
        length-append out ((t ++ flat ts) ++ last),
        length-append (t ++ flat ts) last,
        length-append t (flat ts),
      ) in
      let regroup : (out ++ t) ++ (flat ts ++ last) ≡ out ++ ((t ++ flat ts) ++ last) =
        append_assoc out t (flat ts ++ last)
        ∙ ap (λ x. out ++ x) (sym (append_assoc t (flat ts) last)) in
      rw (read_reply-reply_bytes sent 1 t h (omega arith) n c) (
        round_more first kept sent error out t (λ x y. replies false x y (all_replies sent ts last))
          e l'
        ∙ replies-all_replies false error sent error (out ++ t) ts last refl h cs hl
            (subst (λ (x : Bytes). length x ≤ max_reply) (sym regroup) l)
        ∙ ap (finished error) regroup)

  -- What a text is returned as, by the error that came with it.
  pub data IsAnswer (error : ℕ) (text : Bytes) (a : Answer E) : Type 0 where
    whole : error ≡ 0 → a ≡ answered text → IsAnswer error text a
    words : (s : Bytes) → error ≢ 0 → IsTrimmed text s → a ≡ refused s → IsAnswer error text a

  finished-IsAnswer : (error : ℕ) (text : Bytes) → IsAnswer error text (finished error text)
  unfolding finished
  finished-IsAnswer error text = elim (Bool-cases (error == 0)) [
    | inl z ↦ rw z (whole (ground arith) refl)
    | inr z ↦ rw z (words (trim_space text) (ground arith) (trim_space-IsTrimmed text) refl)
  ]

  -- The text that a guest's kernel sends for a command, in replies of at most 511 bytes without a NUL
  -- and 1 MiB in all: if the replies carry no error, it is what `Request` returns as its answer; and if
  -- they do, the refusal that it returns has the text's words, without the runes of space before the
  -- first and behind the last rune that is none.
  pub request-all_replies :
      (cmd : Bytes) (error : ℕ) (ts : List Bytes) (last : Bytes)
      → length cmd < max_data
      → error < 4294967296
      → All IsChunk ts
      → IsChunk last
      → length (flat ts ++ last) ≤ max_reply
      → IsAnswer error (flat ts ++ last) (request {E = E} cmd none none (all_replies error ts last))
  unfolding request connected
  request-all_replies cmd error ts last hc he cs hl l =
      let short : leb max_data (length cmd) ≡ false = ground arith in
      rw short (
        subst (IsAnswer error (flat ts ++ last))
          (sym (replies-all_replies true 0 error error [] ts last refl he cs hl l))
          (finished-IsAnswer error (flat ts ++ last)))
