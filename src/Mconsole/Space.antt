-- ===== src/Mconsole/Space.antt =====
-- `bytes.TrimSpace` over the runes of a text, and what it leaves.
use vkage.Base.{
  ℕ, ◌+◌, ◌-◌, ◌≤◌, ◌≡◌, ◌≢◌, ◌⊎◌, refl, sym, ap, ◌∙◌, inl, inr, Bool, true, false, ◌&&◌, List, [],
  ◌∷◌, ◌++◌, Bytes, take, drop, length, length-take, length-drop, if◌then◌else◌, All, arith,
  Bool-cases,
}
use vkage.Utf8.{runes}
use vkage.Report.Memory.{is_space}

-- The runes from the first on that is no space, each with its size.
trim_front : List (ℕ × ℕ) → List (ℕ × ℕ)
unfolding is_space
trim_front [] = []
trim_front (r ∷ rs) = let rest = trim_front rs in if is_space r.0 then rest else r ∷ rs

no_more : List (ℕ × ℕ) → Bool
no_more [] = true
no_more (_ ∷ _) = false

-- The runes up to the last that is no space. The source decodes them from the end, which gives the
-- same runes there.
trim_back : List (ℕ × ℕ) → List (ℕ × ℕ)
unfolding is_space no_more
trim_back [] = []
trim_back (r ∷ rs) =
    let rest = trim_back rs in if is_space r.0 && no_more rest then [] else r ∷ rest

-- How many bytes they are.
abbrev pub total : List (ℕ × ℕ) → ℕ
total [] = 0
total (r ∷ rs) = r.1 + total rs

unfoldable pub trim_space : Bytes → Bytes
unfolding trim_front trim_back
trim_space s =
    let rs = runes s in
    let mid = trim_front rs in take (total (trim_back mid)) (drop (total rs - total mid) s)

-- A rune of Unicode's White_Space.
abbrev pub IsSpaceRune : ℕ × ℕ → Type 0
IsSpaceRune (r, n) =
    ((9 ≤ r) × (r ≤ 13))
    ⊎ (r ≡ 0x20)
    ⊎ (r ≡ 0x85)
    ⊎ (r ≡ 0xa0)
    ⊎ (r ≡ 0x1680)
    ⊎ ((0x2000 ≤ r) × (r ≤ 0x200a))
    ⊎ (r ≡ 0x2028)
    ⊎ (r ≡ 0x2029)
    ⊎ (r ≡ 0x202f)
    ⊎ (r ≡ 0x205f)
    ⊎ (r ≡ 0x3000)

-- No first and no last rune is a space.
pub record IsBare (rs : List (ℕ × ℕ)) : Type 0 where
  pub first : (r : ℕ × ℕ) (rest : List (ℕ × ℕ)) → rs ≡ r ∷ rest → ¬ IsSpaceRune r
  pub last : (r : ℕ × ℕ) (rest : List (ℕ × ℕ)) → rs ≡ rest ++ r ∷ [] → ¬ IsSpaceRune r

-- The words of a text: what is left of its runes without the spaces in front and at the end.
pub record IsTrimmed (text words : Bytes) : Type 0 where
  pub front : List (ℕ × ℕ)
  pub mid : List (ℕ × ℕ)
  pub back : List (ℕ × ℕ)
  pub is_text : runes text ≡ front ++ (mid ++ back)
  pub front_is : All IsSpaceRune front
  pub back_is : All IsSpaceRune back
  pub mid_is : IsBare mid
  pub is_words : words ≡ take (total mid) (drop (total front) text)

space_rune : (r n : ℕ) → is_space r ≡ true → IsSpaceRune (r, n)
unfolding is_space
space_rune r n e = ground arith

other_rune : (r n : ℕ) → is_space r ≡ false → ¬ IsSpaceRune (r, n)
unfolding is_space
other_rune r n e = λ s. ground arith

front-split :
    (rs : List (ℕ × ℕ))
    → (front : List (ℕ × ℕ)) × (rs ≡ front ++ trim_front rs) × All IsSpaceRune front
unfolding trim_front
front-split [] = ([], refl, tt)
front-split (r ∷ rs) = elim (Bool-cases (is_space r.0)) [
  | inl space ↦
      let (front, e, h) = front-split rs in
      rw space (r ∷ front, ap (◌∷◌ r) e, (space_rune r.0 r.1 space, h))
  | inr other ↦ rw other ([], refl, tt)
]

no_more-eq : (rs : List (ℕ × ℕ)) → no_more rs ≡ true → rs ≡ []
unfolding no_more
no_more-eq [] e = refl
no_more-eq (r ∷ rs) e = absurd (cc e)

back-split :
    (rs : List (ℕ × ℕ)) → (back : List (ℕ × ℕ)) × (rs ≡ trim_back rs ++ back) × All IsSpaceRune back
unfolding trim_back
back-split [] = ([], refl, tt)
back-split (r ∷ rs) =
    let (back, e, h) = back-split rs in
    elim (Bool-cases (is_space r.0)) [
      | inr other ↦ rw other (back, ap (◌∷◌ r) e, h)
      | inl space ↦ elim (Bool-cases (no_more (trim_back rs))) [
        | inr more ↦ rw (space, more) (back, ap (◌∷◌ r) e, h)
        | inl none' ↦
            let all_back : rs ≡ back = e ∙ ap (λ x. x ++ back) (no_more-eq (trim_back rs) none') in
            rw (space, none') (r ∷ back, ap (◌∷◌ r) all_back, (space_rune r.0 r.1 space, h))
      ]
    ]

not_last : (rest : List (ℕ × ℕ)) (r : ℕ × ℕ) → [] ≢ rest ++ r ∷ []
not_last [] r e = absurd (cc e)
not_last (x ∷ rest) r e = absurd (cc e)

last_of :
    (x r : ℕ × ℕ) (xs rest : List (ℕ × ℕ))
    → x ∷ xs ≡ rest ++ r ∷ []
    → ((x ≡ r) × (xs ≡ [])) ⊎ ((more : List (ℕ × ℕ)) × (xs ≡ more ++ r ∷ []))
last_of x r xs [] e = inl (cc e, cc e)
last_of x r xs (y ∷ rest) e = inr (rest, cc e)

back-last :
    (rs rest : List (ℕ × ℕ)) (r : ℕ × ℕ) → trim_back rs ≡ rest ++ r ∷ [] → is_space r.0 ≡ false
unfolding trim_back no_more
back-last [] rest r e = absurd (not_last rest r e)
back-last (x ∷ rs) rest r e = elim (Bool-cases (is_space x.0 && no_more (trim_back rs))) [
  | inl gone ↦ absurd (not_last rest r (rw gone at e))
  | inr kept ↦ elim (last_of x r (trim_back rs) rest (rw kept at e)) [
    | inr (more, e') ↦ back-last rs more r e'
    | inl (same, none') ↦
        let alone : no_more (trim_back rs) ≡ true = rw none' refl in
        let plain : is_space x.0 ≡ false = ground arith in
        ap (λ (y : ℕ × ℕ). is_space y.0) (sym same) ∙ plain
  ]
]

front-first :
    (rs rest : List (ℕ × ℕ)) (r : ℕ × ℕ)
    → trim_back (trim_front rs) ≡ r ∷ rest
    → is_space r.0 ≡ false
unfolding trim_front trim_back
front-first [] rest r e = absurd (cc e)
front-first (x ∷ rs) rest r e = elim (Bool-cases (is_space x.0)) [
  | inl space ↦ front-first rs rest r (rw space at e)
  | inr other ↦
      let e' : x ∷ trim_back rs ≡ r ∷ rest = rw (other, other) at e in
      let same : x ≡ r = cc e' in ap (λ (y : ℕ × ℕ). is_space y.0) (sym same) ∙ other
]

total-append : (a b : List (ℕ × ℕ)) → total (a ++ b) ≡ total a + total b
total-append [] b = omega arith
total-append (r ∷ a) b = omega (arith, total-append a b)

pub length-trim_space : (s : Bytes) → length (trim_space s) ≤ length s
unfolding trim_space
length-trim_space s =
    let rs = runes s in
    let start = total rs - total (trim_front rs) in
    let mid = total (trim_back (trim_front rs)) in
    omega (arith, length-take mid (drop start s), length-drop start s)

-- What is taken off a text is its space in front and at the end, and no more.
pub trim_space-IsTrimmed : (s : Bytes) → IsTrimmed s (trim_space s)
unfolding trim_space
trim_space-IsTrimmed s =
    let rs = runes s in
    let (front, is, front_is) = front-split rs in
    let (back, is', back_is) = back-split (trim_front rs) in
    let start : total rs - total (trim_front rs) ≡ total front =
      omega (arith, ap total is, total-append front (trim_front rs)) in
    record {
      front = front;
      mid = trim_back (trim_front rs);
      back = back;
      is_text = is ∙ ap (λ x. front ++ x) is';
      front_is = front_is;
      back_is = back_is;
      mid_is = record {
        first = λ r rest e. other_rune r.0 r.1 (front-first rs rest r e);
        last = λ r rest e. other_rune r.0 r.1 (back-last (trim_front rs) rest r e);
      };
      is_words = ap (λ n. take (total (trim_back (trim_front rs))) (drop n s)) start;
    }
