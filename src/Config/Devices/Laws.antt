-- ===== src/Config/Devices/Laws.antt =====
-- What a configuration that was loaded holds, and what `lookup` finds in it.
use vkage.Base.{
  ◌≡◌, refl, ◌⊎◌, inl, inr, true, false, [], ◌∷◌, Option, none, some, Bytes, str_eq, str_eq_iff,
  arith, All, Option-cases, Bool-cases, ◌↔◌,
}
use mathlib.Core.Path.{subst}
use mathlib.Core.List.{Mem, mem-cons_self, mem-cons_of_mem}
use vkage.Base.{Result, ok, err}
use vkage.Pci.Address.{valid_address}
use vkage.Config.Names.{check_name}
use vkage.Config.Devices.{
  Entry, Config, known_type, LoadError, ReadFile, not_exist, failed, contents, check_entry,
  check_entries, checked, parsed, load_config, find_name, find_address, lookup,
}

pub record IsValid (e : Entry) : Type 0 where
  pub named : check_name e.name ≡ true
  pub typed : known_type e.device.typ ≡ true
  pub addressed : valid_address e.device.address ≡ true

module _ {E : Type 0} where
  check_entries-IsValid : (c : Config) → (check_entries {E = E} c ≡ none) ↔ All IsValid c
  unfolding check_entries check_entry
  check_entries-IsValid [] = (λ _. tt, λ _. refl)
  check_entries-IsValid (e ∷ es) = ground (arith, check_entries-IsValid es)

  checked-IsValid :
      (cfg c : Config) (o : Option (LoadError E))
      → (o ≡ none → All IsValid cfg)
      → checked cfg o ≡ ok c
      → All IsValid c
  unfolding checked
  checked-IsValid cfg c none h e =
      let same : cfg ≡ c = ground arith in subst (All IsValid) same (h refl)
  checked-IsValid cfg c (some x) h e = absurd (cc e)

  parsed-IsValid : (r : Result E (Option Config)) (c : Config) → parsed r ≡ ok c → All IsValid c
  unfolding parsed
  parsed-IsValid (err x) c e = absurd (cc e)
  parsed-IsValid (ok none) c e = let same : [] ≡ c = ground arith in subst (All IsValid) same tt
  parsed-IsValid (ok (some cfg)) c e =
      checked-IsValid cfg c (check_entries cfg) (check_entries-IsValid cfg).0 e

  -- Every device of a configuration that `loadConfig` returns has a valid name and address and a
  -- known type, whatever the file holds and whatever JSON makes of it.
  pub load_config-IsValid :
      (unmarshal : Bytes → Result E (Option Config)) (file : ReadFile E) (c : Config)
      → load_config unmarshal file ≡ ok c
      → All IsValid c
  unfolding load_config
  load_config-IsValid unmarshal not_exist c e =
      let same : [] ≡ c = ground arith in subst (All IsValid) same tt
  load_config-IsValid unmarshal (failed x) c e = absurd (cc e)
  load_config-IsValid unmarshal (contents d) c e = parsed-IsValid (unmarshal d) c e

pub find_name-none :
    (c : Config) (key : Bytes)
    → (find_name key c ≡ none) ↔ All (λ (e : Entry). str_eq e.name key ≡ false) c
unfolding find_name
find_name-none [] key = ground arith
find_name-none (e ∷ es) key = ground (arith, find_name-none es key)

first_mem : {x e : Entry} {c : Config} → x ≡ e → Mem e (x ∷ c)
first_mem {x} {e} {c} same = subst (λ y. Mem y (x ∷ c)) same mem-cons_self

find_name-some :
    (c : Config) (key : Bytes) (e : Entry) → find_name key c ≡ some e → Mem e c × (e.name ≡ key)
unfolding find_name
find_name-some [] key e h = absurd (cc h)
find_name-some (x ∷ xs) key e h = elim (Bool-cases (str_eq x.name key)) [
  | inl t ↦ (first_mem (ground arith), ground (arith, str_eq_iff x.name key))
  | inr f ↦ let (m, n) = find_name-some xs key e (ground arith) in (mem-cons_of_mem x m, n)
]

find_address-some :
    (c : Config) (key : Bytes) (e : Entry)
    → find_address key c ≡ some e
    → Mem e c × (e.device.address ≡ key)
unfolding find_address
find_address-some [] key e h = absurd (cc h)
find_address-some (x ∷ xs) key e h = elim (Bool-cases (str_eq x.device.address key)) [
  | inl t ↦ (first_mem (ground arith), ground (arith, str_eq_iff x.device.address key))
  | inr f ↦ let (m, n) = find_address-some xs key e (ground arith) in (mem-cons_of_mem x m, n)
]

-- What `lookup` finds is a device of the configuration: one that has the key for its name, or, only if
-- no device has this name, one that has it for its address.
pub lookup-some :
    (c : Config) (key : Bytes) (e : Entry)
    → lookup c key ≡ some e
    → Mem e c
      × ((e.name ≡ key)
          ⊎ ((e.device.address ≡ key) × All (λ (x : Entry). str_eq x.name key ≡ false) c))
unfolding lookup
lookup-some c key e h = elim (Option-cases (find_name key c)) [
  | inl n ↦
      let (m, a) = find_address-some c key e (ground arith) in
      (m, inr (a, (find_name-none c key).0 n))
  | inr (x, s) ↦ let (m, n) = find_name-some c key e (ground arith) in (m, inl n)
]

-- `lookup` fails exactly if no device has the name or the address.
pub lookup-none_iff :
    (c : Config) (key : Bytes)
    → (lookup c key ≡ none)
      ↔ All (λ (e : Entry). (str_eq e.name key ≡ false) × (str_eq e.device.address key ≡ false)) c
unfolding lookup find_name find_address
lookup-none_iff [] key = ground arith
lookup-none_iff (e ∷ es) key = ground (arith, lookup-none_iff es key)
