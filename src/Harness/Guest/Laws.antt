-- ===== src/Harness/Guest/Laws.antt =====
-- The output between the marks is never sliced out of its range, and is what stands between them.
use vkage.Base.{
  ℕ, zero, suc, ◌+◌, ◌-◌, ◌≤◌, ◌<◌, ◌≡◌, refl, sym, ◌∙◌, ap, inl, inr, Bool, true, false, [], ◌∷◌,
  ◌++◌, append_assoc, Option, none, some, Bytes, codes, decimal, has_prefix, cut_prefix, length,
  length-append, take, drop, ltb, ◌==◌, All, All-append, All-drop, length-drop, Bool-cases, arith,
}
use mathlib.Core.Path.{subst}
use vkage.Base.Text.Decimal.{IsDigit, decimal-IsDigit}
use vkage.Harness.Guest.{
  index_next, index, start_mark, end_mark, without_cr, slice, sliced, between, GuestHost, waited,
  sent, output, input_line,
}

-- A prefix is one.
prefix : (s p : Bytes) → has_prefix s p ≡ true → (r : Bytes) × (s ≡ p ++ r)
unfolding has_prefix cut_prefix
prefix s [] h = (s, refl)
prefix [] (b ∷ p) h = absurd (cc h)
prefix (c ∷ s) (b ∷ p) h = elim (Bool-cases (c == b)) [
  | inl same ↦
      let (r, e) = prefix s p (rw (has_prefix, same) at h) in
      let f : c ≡ b = ground arith in (r, rw (f, e) refl)
  | inr other ↦ absurd (cc (rw (has_prefix, other) at h))
]

-- A text that is found at a place stands there.
abbrev At : Bytes → Bytes → ℕ → Type 0
At s p i = (r : Bytes) × (drop i s ≡ p ++ r) × (i + length p ≤ length s)

prefix-At : (s p : Bytes) → has_prefix s p ≡ true → At s p 0
prefix-At s p h = let (r, e) = prefix s p h in (r, e, omega (arith, ap length e, length-append p r))

some_eq : {i j : ℕ} → Path (Option ℕ) (some i) (some j) → i ≡ j
some_eq {i} {j} e = ap (number i) e
  where
    number : ℕ → Option ℕ → ℕ
    number d none = d
    number d (some n) = n

index_next-At :
    (b : ℕ) (s p : Bytes) (o : Option ℕ) (i : ℕ)
    → ((j : ℕ) → o ≡ some j → At s p j)
    → index_next o ≡ some i
    → At (b ∷ s) p i
unfolding index_next
index_next-At b s p none i k h = absurd (cc h)
index_next-At b s p (some j) zero k h = absurd (ground (arith, some_eq h))
index_next-At b s p (some j) (suc i) k h =
    let (r, e, l) = k i (ap some (omega (arith, some_eq h))) in (r, e, omega arith)

index-At : (s p : Bytes) (i : ℕ) → index s p ≡ some i → At s p i
unfolding index
index-At [] p i h = elim (Bool-cases (has_prefix [] p)) [
  | inl here ↦ subst (At [] p) (some_eq (rw here at h)) (prefix-At [] p here)
  | inr not_here ↦ absurd (cc (rw not_here at h))
]
index-At (b ∷ s) p i h = elim (Bool-cases (has_prefix (b ∷ s) p)) [
  | inl here ↦ subst (At (b ∷ s) p) (some_eq (rw here at h)) (prefix-At (b ∷ s) p here)
  | inr not_here ↦ index_next-At b s p (index s p) i (λ j e. index-At s p j e) (rw not_here at h)
]

drop-nil : (n : ℕ) → drop {A = ℕ} n [] ≡ []
drop-nil zero = refl
drop-nil (suc n) = refl

drop-drop : (d i : ℕ) (s : Bytes) → drop (i + d) s ≡ drop d (drop i s)
drop-drop d zero s = let e : zero + d ≡ d = omega arith in rw e refl
drop-drop d (suc i) [] = drop-nil (suc i + d) ∙ sym (drop-nil d)
drop-drop d (suc i) (b ∷ s) =
    let e : suc i + d ≡ suc (i + d) = omega arith in rw e (drop-drop d i s)

drop-append : (d : ℕ) (s r : Bytes) → d ≤ length s → drop d (s ++ r) ≡ drop d s ++ r
drop-append zero s r h = refl
drop-append (suc d) [] r h = absurd (omega arith)
drop-append (suc d) (b ∷ s) r h = drop-append d s r (omega arith)

-- No byte of a mark but the first is the byte that a mark begins with.
abbrev IsInner : ℕ → Type 0
IsInner b = (b == b'm') ≡ false

digits-IsInner : (s : Bytes) → All IsDigit s → All IsInner s
digits-IsInner [] h = tt
digits-IsInner (b ∷ s) (p, h) = (ground arith, digits-IsInner s h)

abbrev inner_start : ℕ → Bytes
inner_start n = codes "ark-" ++ (decimal n ++ codes "-start")

inner_start-IsInner : (n : ℕ) → All IsInner (inner_start n)
inner_start-IsInner n =
    All-append IsInner (codes "ark-") (decimal n ++ codes "-start")
      (refl, (refl, (refl, (refl, tt))))
      (All-append IsInner (decimal n) (codes "-start")
        (digits-IsInner (decimal n) (decimal-IsDigit n))
        (refl, (refl, (refl, (refl, (refl, (refl, tt)))))))

head : Bytes → ℕ
head [] = 0
head (b ∷ s) = b

clash : (s r t : Bytes) → All IsInner s → 0 < length s → s ++ r ≡ b'm' ∷ t → ⊥
unfolding head
clash [] r t h l e = absurd (omega arith)
clash (b ∷ s) r t (p, h) l e = absurd (ground (arith, ap head e))

cancel : (s t u : Bytes) → s ++ t ≡ s ++ u → t ≡ u
cancel [] t u e = e
cancel (b ∷ s) t u e = cancel s t u (ap (drop 1) e)

-- Marks of one number differ where they end.
apart : (n : ℕ) (r t : Bytes) → start_mark n ++ r ≡ end_mark n ++ t → ⊥
unfolding head
apart n r t e =
    let f =
      cancel (codes "mark-") ((decimal n ++ codes "-start") ++ r) ((decimal n ++ codes "-end") ++ t)
        e in
    let g = cancel (decimal n) (codes "-start" ++ r) (codes "-end" ++ t) (
      sym (append_assoc (decimal n) (codes "-start") r)
      ∙ f
      ∙ append_assoc (decimal n) (codes "-end") t) in
    absurd (ground (arith, ap (λ s. head (drop 1 s)) g))

inside_clash :
    (n d : ℕ) (r t : Bytes)
    → d < length (start_mark n)
    → drop d (start_mark n ++ r) ≡ end_mark n ++ t
    → ⊥
inside_clash n zero r t l e = apart n r t e
inside_clash n (suc d) r t l e =
    clash (drop d (inner_start n)) r (drop 1 (end_mark n ++ t))
      (All-drop IsInner d (inner_start n) (inner_start-IsInner n))
      (omega (arith, length-drop d (inner_start n)))
      (sym (drop-append d (inner_start n) r (omega arith)) ∙ e)

-- An end mark stands behind the start mark, not in it.
no_overlap :
    (n : ℕ) (log : Bytes) (i j : ℕ)
    → At log (start_mark n) i
    → At log (end_mark n) j
    → i ≤ j
    → i + length (start_mark n) ≤ j
no_overlap n log i j (r, e, l) (t, f, k) le =
    elim (Bool-cases (ltb j (i + length (start_mark n)))) [
      | inr past ↦ ground arith
      | inl inside ↦
          let same : i + (j - i) ≡ j = omega arith in
          let there : drop (j - i) (drop i log) ≡ end_mark n ++ t =
            sym (drop-drop (j - i) i log) ∙ ap (λ m. drop m log) same ∙ f in
          absurd (inside_clash n (j - i) r t (ground arith) (sym (ap (drop (j - i)) e) ∙ there))
    ]

-- The places of the marks of one number never make a slice out of range, whatever the log.
between_total :
    (n : ℕ) (log : Bytes) (o p : Option ℕ)
    → ((i : ℕ) → o ≡ some i → At log (start_mark n) i)
    → ((j : ℕ) → p ≡ some j → At log (end_mark n) j)
    → (out : Bytes) × (between log (start_mark n) o p ≡ some out)
unfolding between sliced slice
between_total n log none p h k = ([], refl)
between_total n log (some i) none h k = ([], refl)
between_total n log (some i) (some j) h k = elim (Bool-cases (ltb j i)) [
  | inl early ↦ ([], rw early refl)
  | inr late ↦
      let (t, f, m) = k j refl in
      let fits = no_overlap n log i j (h i refl) (k j refl) (ground arith) in
      let ordered : ltb j (i + length (start_mark n)) ≡ false = ground arith in
      let within : ltb (length log) j ≡ false = ground arith in
      (
        without_cr (take (j - (i + length (start_mark n))) (drop (i + length (start_mark n)) log)),
        rw (late, ordered, within) refl,
      )
]

module _ (h : GuestHost) where
  waited_total : (n : ℕ) (r : Bool × h.World) → (out : Bytes) × ((waited h n r).0 ≡ some out)
  unfolding waited
  waited_total n (false, w) = ([], refl)
  waited_total n (true, w) =
      between_total n (h.log w) (index (h.log w) (start_mark n)) (index (h.log w) (end_mark n))
        (index-At (h.log w) (start_mark n)) (index-At (h.log w) (end_mark n))

  sent_total : (n : ℕ) (r : Bool × h.World) → (out : Bytes) × ((sent h n r).0 ≡ some out)
  unfolding sent
  sent_total n (false, w) = ([], refl)
  sent_total n (true, w) = waited_total n (h.wait_for (end_mark n) w)

  -- `Output` returns a text for every command, every number of its marks and whatever the guest's
  -- console shows: it never takes a slice of the log out of the log's range.
  pub output_total :
      (n : ℕ) (line : Bytes) (w : h.World) → (out : Bytes) × ((output h n line w).0 ≡ some out)
  unfolding output
  output_total n line w = sent_total n (h.send (input_line n line) w)
