-- ===== src/Tester/Bind/Holders.antt =====
-- The processes that hold a group's node open.
use vkage.Base.{
  ◌≡◌, refl, sym, ◌↔◌, ◌⊎◌, inl, inr, true, false, List, [], ◌∷◌, ◌++◌, Bytes, codes, str_eq,
  str_eq_iff, Bool-cases, arith,
}
use mathlib.Core.Path.{subst}
use vkage.Pci.InUse.Laws.{Among, first, later}
use vkage.Tester.Bind.{seen, holders_onto, group_holders}

-- No element twice.
pub data Distinct : List Bytes → Type 0 where
  nothing : Distinct []
  one_more : (p : Bytes) (ps : List Bytes) → seen p ps ≡ false → Distinct ps → Distinct (p ∷ ps)

str_eq_same : (s : Bytes) → str_eq s s ≡ true
str_eq_same s = (str_eq_iff s s).1 refl

seen-Among : (p : Bytes) (ps : List Bytes) → seen p ps ≡ true → Among p ps
unfolding seen
seen-Among p [] e = absurd (ground arith)
seen-Among p (q ∷ ps) e = elim (Bool-cases (str_eq p q)) [
  | inl same ↦ subst (λ x. Among p (x ∷ ps)) ((str_eq_iff p q).0 same) (first ps)
  | inr other ↦ later q ps (seen-Among p ps (ground arith))
]

Among-before : (q : Bytes) (ps qs : List Bytes) → Among q ps → Among q (ps ++ qs)
Among-before q _ qs (first ps) = first (ps ++ qs)
Among-before q _ qs (later p ps m) = later p (ps ++ qs) (Among-before q ps qs m)

Among-behind : (q : Bytes) (ps qs : List Bytes) → Among q qs → Among q (ps ++ qs)
Among-behind q [] qs m = m
Among-behind q (p ∷ ps) qs m = later p (ps ++ qs) (Among-behind q ps qs m)

Among-snoc : (q p : Bytes) (ps : List Bytes) → Among q (ps ++ p ∷ []) → Among q ps ⊎ (q ≡ p)
Among-snoc q p [] (first _) = inr refl
Among-snoc q p [] (later _ _ m) = elim m [ ]
Among-snoc q p (r ∷ ps) (first _) = inl (first ps)
Among-snoc q p (r ∷ ps) (later _ _ m) = one_later (Among-snoc q p ps m)
  where
    one_later : Among q ps ⊎ (q ≡ p) → Among q (r ∷ ps) ⊎ (q ≡ p)
    one_later (inl n) = inl (later r ps n)
    one_later (inr e) = inr e

-- A process not seen is another than those seen.
seen-snoc :
    (q p : Bytes) (ps : List Bytes)
    → seen q ps ≡ false
    → str_eq q p ≡ false
    → seen q (ps ++ p ∷ []) ≡ false
unfolding seen
seen-snoc q p [] h e = rw e refl
seen-snoc q p (r ∷ ps) h e = elim (Bool-cases (str_eq q r)) [
  | inl same ↦ absurd (cc (rw same at h))
  | inr other ↦ rw other (seen-snoc q p ps (rw other at h) e)
]

other_way : (p q : Bytes) → str_eq p q ≡ false → str_eq q p ≡ false
other_way p q e = elim (Bool-cases (str_eq q p)) [
  | inl same ↦ absurd (cc ((str_eq_iff p q).1 (sym ((str_eq_iff q p).0 same)), e))
  | inr other ↦ other
]

Distinct-snoc :
    (p : Bytes) (ps : List Bytes) → seen p ps ≡ false → Distinct ps → Distinct (ps ++ p ∷ [])
unfolding seen
Distinct-snoc p _ h nothing = one_more p [] refl nothing
Distinct-snoc p _ h (one_more q ps n d) = elim (Bool-cases (str_eq p q)) [
  | inl same ↦ absurd (cc (rw same at h))
  | inr other ↦
      one_more q (ps ++ p ∷ []) (seen-snoc q p ps n (other_way p q other))
        (Distinct-snoc p ps (rw other at h) d)
]

newest :
    (node p q t : Bytes) (links : List (Bytes × Bytes)) (pids : List Bytes)
    → t ≡ node
    → Among q (pids ++ p ∷ [])
    → Among q pids ⊎ Among (q, node) ((p, t) ∷ links)
newest node p q t links pids e m = newest_of (Among-snoc q p pids m)
  where
    newest_of : Among q pids ⊎ (q ≡ p) → Among q pids ⊎ Among (q, node) ((p, t) ∷ links)
    newest_of (inl n) = inl n
    newest_of (inr same) =
        inr (subst (λ x. Among (q, node) (x ∷ links)) (cc (same, e)) (first links))

module _ (node : Bytes) where
  holders-Distinct :
      (links : List (Bytes × Bytes)) (pids : List Bytes)
      → Distinct pids
      → Distinct (holders_onto node links pids)
  unfolding holders_onto
  holders-Distinct [] pids h = h
  holders-Distinct ((p, t) ∷ links) pids h = elim (Bool-cases (str_eq t node)) [
    | inr miss ↦ rw miss (holders-Distinct links pids h)
    | inl hit ↦ elim (Bool-cases (seen p pids)) [
      | inl old ↦ rw (hit, old) (holders-Distinct links pids h)
      | inr new ↦
          rw (hit, new) (holders-Distinct links (pids ++ p ∷ []) (Distinct-snoc p pids new h))
    ]
  ]

  holders-before :
      (q : Bytes) (links : List (Bytes × Bytes)) (pids : List Bytes)
      → Among q pids
      → Among q (holders_onto node links pids)
  unfolding holders_onto
  holders-before q [] pids m = m
  holders-before q ((p, t) ∷ links) pids m = elim (Bool-cases (str_eq t node)) [
    | inr miss ↦ rw miss (holders-before q links pids m)
    | inl hit ↦ elim (Bool-cases (seen p pids)) [
      | inl old ↦ rw (hit, old) (holders-before q links pids m)
      | inr new ↦
          rw (hit, new) (holders-before q links (pids ++ p ∷ []) (Among-before q pids (p ∷ []) m))
    ]
  ]

  holders-complete :
      (q : Bytes) (links : List (Bytes × Bytes)) (pids : List Bytes)
      → Among (q, node) links
      → Among q (holders_onto node links pids)
  unfolding holders_onto
  holders-complete q _ pids (first links) = elim (Bool-cases (seen q pids)) [
    | inl old ↦ rw (str_eq_same node, old) (holders-before q links pids (seen-Among q pids old))
    | inr new ↦
        rw (str_eq_same node, new)
          (holders-before q links (pids ++ q ∷ []) (Among-behind q pids (q ∷ []) (first [])))
  ]
  holders-complete q _ pids (later (p, t) links m) = elim (Bool-cases (str_eq t node)) [
    | inr miss ↦ rw miss (holders-complete q links pids m)
    | inl hit ↦ elim (Bool-cases (seen p pids)) [
      | inl old ↦ rw (hit, old) (holders-complete q links pids m)
      | inr new ↦ rw (hit, new) (holders-complete q links (pids ++ p ∷ []) m)
    ]
  ]

  -- Where each of the processes is one that holds the node.
  holders-sound :
      (q : Bytes) (links : List (Bytes × Bytes)) (pids : List Bytes)
      → Among q (holders_onto node links pids)
      → Among q pids ⊎ Among (q, node) links
  unfolding holders_onto
  holders-sound q [] pids m = inl m
  holders-sound q ((p, t) ∷ links) pids m = elim (Bool-cases (str_eq t node)) [
    | inr miss ↦ behind (holders-sound q links pids (rw miss at m))
    | inl hit ↦ elim (Bool-cases (seen p pids)) [
      | inl old ↦ behind (holders-sound q links pids (rw (hit, old) at m))
      | inr new ↦
          held ((str_eq_iff t node).0 hit)
            (holders-sound q links (pids ++ p ∷ []) (rw (hit, new) at m))
    ]
  ]
    where
      behind :
          Among q pids ⊎ Among (q, node) links → Among q pids ⊎ Among (q, node) ((p, t) ∷ links)
      behind (inl m) = inl m
      behind (inr m) = inr (later (p, t) links m)

      held :
          t ≡ node
          → Among q (pids ++ p ∷ []) ⊎ Among (q, node) links
          → Among q pids ⊎ Among (q, node) ((p, t) ∷ links)
      held e (inl m) = newest node p q t links pids e m
      held e (inr m) = inr (later (p, t) links m)

pub group_holders_iff :
    (group q : Bytes) (links : List (Bytes × Bytes))
    → (Among q (group_holders group links) ↔ Among (q, codes "/dev/vfio/" ++ group) links)
      × Distinct (group_holders group links)
unfolding group_holders
group_holders_iff group q links =
    let node = codes "/dev/vfio/" ++ group in
    (
      (λ m. held (holders-sound node q links [] m), holders-complete node q links []),
      holders-Distinct node links [] nothing,
    )
  where
    held :
        Among q [] ⊎ Among (q, codes "/dev/vfio/" ++ group) links
        → Among (q, codes "/dev/vfio/" ++ group) links
    held (inr m) = m
    held (inl m) = elim m [ ]
