-- ===== src/Pci/Address/Laws.antt =====
-- What a valid address is, and what becomes of one that a user writes.
use vkage.Base.{
  ℕ, ◌+◌, ◌≡◌, ◌↔◌, refl, ◌⊎◌, true, List, [], ◌∷◌, ◌++◌, map, none, some, Bytes, codes, lower,
  count, ◌==◌, if◌then◌else◌, arith, All, str_eq_iff,
}
use vkage.Pci.Address.{
  ByteClass, hex, octal, only, has_class, matches, address_pattern, bus_pattern, valid_address,
  normalize_address, Peer, shares_group, check_peers,
}

-- A pattern that uppercase letters do not match.
abbrev IsLowClass : ByteClass → Type 0
IsLowClass hex = Unit
IsLowClass octal = Unit
IsLowClass (only c) = lower c ≡ c

lower-has_class : (p : ByteClass) (b : ℕ) → IsLowClass p → has_class p b ≡ true → lower b ≡ b
unfolding has_class
lower-has_class hex b l h = ground arith
lower-has_class octal b l h = ground arith
lower-has_class (only c) b l h = let is : b ≡ c = ground arith in rw is l

pub map-lower-matches :
    (ps : List ByteClass) (s : Bytes) → All IsLowClass ps → matches ps s ≡ true → map lower s ≡ s
unfolding matches
map-lower-matches [] [] l h = refl
map-lower-matches [] (b ∷ s) l h = cc
map-lower-matches (p ∷ ps) [] l h = refl
map-lower-matches (p ∷ ps) (b ∷ s) (l, ls) h =
    rw (lower-has_class p b l (ground arith), map-lower-matches ps s ls (ground arith)) refl

-- How often a text that matches has the byte, which no class but its own holds.
abbrev colons : List ByteClass → ℕ
colons [] = 0
colons (hex ∷ ps) = colons ps
colons (octal ∷ ps) = colons ps
colons (only c ∷ ps) = let n = colons ps in if c == b':' then n + 1 else n

pub count-matches :
    (ps : List ByteClass) (s : Bytes) → matches ps s ≡ true → count b':' s ≡ colons ps
unfolding matches count has_class
count-matches [] [] h = refl
count-matches [] (b ∷ s) h = cc
count-matches (p ∷ ps) [] h = cc
count-matches (hex ∷ ps) (b ∷ s) h = ground (arith, count-matches ps s)
count-matches (octal ∷ ps) (b ∷ s) h = ground (arith, count-matches ps s)
count-matches (only c ∷ ps) (b ∷ s) h = ground (arith, count-matches ps s)

abbrev pub low_classes : All IsLowClass address_pattern
low_classes = (tt, (tt, (tt, (tt, (refl, (tt, (tt, (refl, (tt, (tt, (refl, (tt, tt))))))))))))

pub normalize_valid : (s : Bytes) → valid_address s ≡ true → normalize_address s ≡ some s
unfolding normalize_address valid_address
normalize_valid s v =
    let low = map-lower-matches address_pattern s low_classes v in
    let two : count b':' s ≡ 2 = count-matches address_pattern s v in rw (low, two, v) refl

-- An address that `NormalizeAddress` returns is valid, and it is returned as it is when it is
-- normalized again.
pub normalize_address_idem :
    (s t : Bytes)
    → normalize_address s ≡ some t
    → (valid_address t ≡ true) × (normalize_address t ≡ some t)
unfolding normalize_address
normalize_address_idem s t e =
    let v : valid_address t ≡ true = ground arith in (v, normalize_valid t v)

-- An address without its domain, as lspci prints it, gets the domain 0000.
pub normalize_address_bus :
    (s : Bytes) → matches bus_pattern s ≡ true → normalize_address s ≡ some (codes "0000:" ++ s)
unfolding normalize_address valid_address matches has_class
normalize_address_bus s v =
    let low = map-lower-matches bus_pattern s low_classes.1.1.1.1.1 v in
    let one : count b':' s ≡ 1 = count-matches bus_pattern s v in rw (low, one, v) refl

-- A group passes `CheckGroup` exactly if every peer but the device itself has no driver or one that
-- shares a group with VFIO.
pub check_peers_iff :
    (addr : Bytes) (peers : List Peer)
    → (check_peers addr peers ≡ none)
      ↔ All (λ (p : Peer). (p.name ≡ addr) ⊎ (shares_group p.driver ≡ true)) peers
unfolding check_peers
check_peers_iff addr [] = (λ _. tt, λ _. refl)
check_peers_iff addr (p ∷ ps) = ground (arith, check_peers_iff addr ps, str_eq_iff p.name addr)
