-- ===== src/Pci/Address.antt =====
-- `ValidAddress`, `NormalizeAddress`, `ClassType`, `CheckGroup` and `MatchDriver` of
-- tools/internal/pci/pci.go. Texts are bytes; a lowered text is taken to be ASCII, since no other
-- letter has a lowercase that an address holds.
pub mod Laws
use vkage.Base.{
  ℕ, ◌+◌, Bool, true, false, not, ◌&&◌, ◌||◌, List, [], ◌∷◌, ◌++◌, map, Option, none, some, Bytes,
  codes, lower, count, has_prefix, split, str_eq, ◌==◌, leb, if◌then◌else◌,
}

abbrev within : ℕ → ℕ → ℕ → Bool
within lo hi b = leb lo b && leb b hi

-- The parts of the regular expression: [0-9a-f], [0-7] and a byte for itself.
pub data ByteClass : Type 0 where
  hex octal : ByteClass
  only : ℕ → ByteClass

unfoldable pub has_class : ByteClass → ℕ → Bool
has_class hex b = within b'0' b'9' b || within b'a' b'f' b
has_class octal b = within b'0' b'7' b
has_class (only c) b = b == c

-- A text matches the whole of a list of classes.
unfoldable pub matches : List ByteClass → Bytes → Bool
unfolding has_class
matches [] [] = true
matches [] (b ∷ s) = false
matches (p ∷ ps) [] = false
matches (p ∷ ps) (b ∷ s) = has_class p b && matches ps s

-- `[0-9a-f]{2}:[0-9a-f]{2}\.[0-7]`, which follows the domain.
abbrev pub bus_pattern : List ByteClass
bus_pattern = hex ∷ hex ∷ only b':' ∷ hex ∷ hex ∷ only b'.' ∷ octal ∷ []

abbrev pub address_pattern : List ByteClass
address_pattern = hex ∷ hex ∷ hex ∷ hex ∷ only b':' ∷ bus_pattern

unfoldable pub valid_address : Bytes → Bool
unfolding matches
valid_address addr = matches address_pattern addr

unfoldable pub normalize_address : Bytes → Option Bytes
unfolding valid_address
normalize_address s =
    let lowered = map lower s in
    let addr = if count b':' lowered == 1 then codes "0000:" ++ lowered else lowered in
    if valid_address addr then some addr else none

unfoldable pub class_type : Bytes → Bytes
class_type class =
    if has_prefix class (codes "0x0280")
    then codes "wlan"
    else if has_prefix class (codes "0x0200")
    then codes "net"
    else []

-- `strings.Contains`.
unfoldable pub contains : Bytes → Bytes → Bool
contains [] sub = has_prefix [] sub
contains (b ∷ s) sub = let rest = contains s sub in has_prefix (b ∷ s) sub || rest

-- The drivers of which VFIO lets a device be in the group; an empty text is no driver.
unfoldable pub shares_group : Bytes → Bool
unfolding contains
shares_group drv =
    str_eq drv []
    || str_eq drv (codes "pci-stub")
    || str_eq drv (codes "pcieport")
    || contains drv (codes "vfio")

pub record Peer : Type 0 where
  pub name : Bytes
  pub driver : Bytes

-- The loop of `CheckGroup`: the peer that it refuses, `none` for a nil error.
unfoldable pub check_peers : Bytes → List Peer → Option Peer
unfolding shares_group
check_peers addr [] = none
check_peers addr (p ∷ ps) =
    let rest = check_peers addr ps in
    if str_eq p.name addr then rest else if shares_group p.driver then rest else some p

-- `strings.Cut`: what is before the separator and behind it.
unfoldable pub cut : Bytes → Bytes → Option (Bytes × Bytes)
cut [] sep = if has_prefix [] sep then some ([], []) else none
cut (b ∷ s) sep =
    let rest = cut s sep in
    elim (vkage.Base.cut_prefix (b ∷ s) sep) [
      | some after ↦ some ([], after)
      | none ↦ elim rest [ none ↦ none | some (before, after) ↦ some (b ∷ before, after) ]
    ]

-- `path.Match` is a parameter; a pattern that it refuses is no match.
module _ (match : Bytes → Bytes → Bool) where
  -- The module of an entry that matches.
  unfoldable pub match_entry : Bytes → Bytes → Option Bytes
  unfolding cut
  match_entry alias entry = elim (cut entry (codes ".alias=")) [
    | none ↦ none
    | some (mod', pattern) ↦
        if has_prefix pattern (codes "pci:") && match pattern alias then some mod' else none
  ]

  match_entries : Bytes → List Bytes → Bytes
  unfolding match_entry
  match_entries alias [] = []
  match_entries alias (e ∷ es) =
      let rest = match_entries alias es in elim (match_entry alias e) [ none ↦ rest | some m ↦ m ]

  unfoldable pub match_driver : Bytes → Bytes → Bytes
  unfolding match_entries
  match_driver alias modinfo = match_entries alias (split modinfo 0)
