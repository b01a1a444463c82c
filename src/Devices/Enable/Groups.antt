-- ===== src/Devices/Enable/Groups.antt =====
-- What enabling a device does to the configuration: the devices stay valid, and no two of them share a
-- name, an address or an IOMMU group.
use vkage.Base.{
  ◌≡◌, ◌≢◌, refl, inl, inr, true, false, not, ◌&&◌, ◌||◌, [], ◌∷◌, ◌++◌, Option, none, some, Bytes,
  str_eq, str_eq_iff, All, All-append, arith, Bool-cases, Option-cases, Result, ok, err,
}
use vkage.Pci.Address.{valid_address, normalize_address}
use mathlib.Core.Path.{subst}
use vkage.Pci.Queries.Laws.{device_type_known}
use vkage.Pci.Address.Laws.{normalize_address_idem}
use vkage.Pci.Queries.{device_type, QueryError, guest_driver, check_group}
use vkage.Config.Names.{check_name}
use vkage.Config.Devices.{Config, Entry, known_type, lookup, find_name}
use vkage.Config.Devices.Laws.{IsValid, lookup-none_iff, find_name-none}
use vkage.Devices.Enable.{
  Queries, EnableError, Enabling, same_group, group_peer, new_entry, record_new, record_device,
  with_config, refused_size, grouped_device, checked_device, typed_device, enable, is_set,
}

-- The two devices can be told apart, and have no group in common.
pub record IsApart (group : Bytes → Option Bytes) (e x : Entry) : Type 0 where
  pub names : e.name ≢ x.name
  pub addresses : e.device.address ≢ x.device.address
  pub groups : (g : Bytes) → group e.device.address ≡ some g → group x.device.address ≢ some g

-- Each device is apart from all that follow it.
abbrev pub AreApart : (Bytes → Option Bytes) → Config → Type 0
AreApart group [] = Unit
AreApart group (e ∷ es) = All (IsApart group e) es × AreApart group es

AreApart-append :
    (group : Bytes → Option Bytes) (n : Entry) (c : Config)
    → AreApart group c
    → All (λ (e : Entry). IsApart group e n) c
    → AreApart group (c ++ n ∷ [])
AreApart-append group n [] a h = (tt, tt)
AreApart-append group n (e ∷ es) (a, as') (h, hs) =
    (All-append (IsApart group e) es (n ∷ []) a (h, tt), AreApart-append group n es as' hs)

str_eq-false : (s t : Bytes) → str_eq s t ≡ false → s ≢ t
str_eq-false s t h e = absurd (cc (h, (str_eq_iff s t).1 e))

group_apart : (d a : Option Bytes) → same_group d a ≡ false → (g : Bytes) → d ≡ some g → a ≢ some g
unfolding same_group
group_apart none a h g e f = absurd (cc e)
group_apart (some d) none h g e f = absurd (cc f)
group_apart (some d) (some b) h g e f = let same : d ≡ b = ground arith in str_eq-false d b h same

module _ {E : Type 0} (q : Queries E) where
  -- What the loop over the devices has found out where it finds no peer.
  group_peer-none :
      (addr : Bytes) (c : Config)
      → group_peer q addr c ≡ none
      → All
          (λ (e : Entry).
            (same_group (q.pci.group e.device.address) (q.pci.group addr)
              && not (str_eq e.device.address addr))
            ≡ false)
          c
  unfolding group_peer
  group_peer-none addr [] h = tt
  group_peer-none addr (e ∷ es) h = ground (arith, group_peer-none addr es)

  IsApart-new :
      (n : Entry) (c : Config)
      → All
          (λ (e : Entry).
            (same_group (q.pci.group e.device.address) (q.pci.group n.device.address)
              && not (str_eq e.device.address n.device.address))
            ≡ false)
          c
      → All (λ (e : Entry). str_eq e.device.address n.device.address ≡ false) c
      → All (λ (e : Entry). str_eq e.name n.name ≡ false) c
      → All (λ (e : Entry). IsApart q.pci.group e n) c
  IsApart-new n [] g a m = tt
  IsApart-new n (e ∷ es) (g, gs) (a, as') (m, ms) = (
    record {
      names = str_eq-false e.name n.name m;
      addresses = str_eq-false e.device.address n.device.address a;
      groups =
          group_apart (q.pci.group e.device.address) (q.pci.group n.device.address) (ground arith);
    },
    IsApart-new n es gs as' ms,
  )

  -- What a configuration that enable works with holds.
  abbrev pub IsSound : Config → Type 0
  IsSound c = All IsValid c × AreApart q.pci.group c

  abbrev Sound : Result (EnableError E) Enabling → Type 0
  Sound (ok en) = IsSound en.config
  Sound (err e) = Unit

  of_lookup :
      (c : Config) (key : Bytes)
      → All (λ (e : Entry). (str_eq e.name key ≡ false) × (str_eq e.device.address key ≡ false)) c
      → All (λ (e : Entry). str_eq e.device.address key ≡ false) c
  of_lookup [] key h = tt
  of_lookup (e ∷ es) key ((n, a), hs) = (a, of_lookup es key hs)

  record_new-Sound :
      (addr typ name memory : Bytes) (c : Config)
      → valid_address addr ≡ true
      → known_type typ ≡ true
      → group_peer q addr c ≡ none
      → lookup c addr ≡ none
      → IsSound c
      → Sound (record_new q addr typ name memory c)
  unfolding record_new
  record_new-Sound addr typ name memory c v k g l (valid, apart) =
      elim (Bool-cases (check_name name)) [
        | inr bad ↦ rw bad tt
        | inl good ↦ elim (Option-cases (find_name name c)) [
          | inr (e, taken) ↦ rw (good, taken) tt
          | inl free ↦
              let n = new_entry q name addr typ memory in
              rw (good, free)
                (
                  All-append IsValid c (n ∷ []) valid
                      (record { named = good; typed = k; addressed = v }, tt),
                  AreApart-append q.pci.group n c apart (
                      IsApart-new n c (group_peer-none addr c g)
                        (of_lookup c addr ((lookup-none_iff c addr).0 l))
                        ((find_name-none c name).0 free)),
                )
        ]
      ]

  record_device-Sound :
      (addr typ name memory : Bytes) (c : Config)
      → valid_address addr ≡ true
      → known_type typ ≡ true
      → group_peer q addr c ≡ none
      → IsSound c
      → Sound (record_device q addr typ name memory c)
  unfolding record_device
  record_device-Sound addr typ name memory c v k g s = elim (Option-cases (lookup c addr)) [
    | inl l ↦ rw (l, Sound) (record_new-Sound addr typ _ memory c v k g l s)
    | inr (e, l) ↦
        let changes =
          is_set name && not (str_eq name e.name)
          || is_set memory && not (str_eq memory e.device.memory) in
        elim (Bool-cases changes) [
          | inl yes' ↦ rw (l, yes', Sound) tt
          | inr no' ↦ rw (l, no', Sound) s
        ]
  ]

  with_config-Sound :
      (addr typ name memory : Bytes) (r : Result E Config)
      → valid_address addr ≡ true
      → known_type typ ≡ true
      → ((c : Config) → r ≡ ok c → IsSound c)
      → Sound (with_config q addr typ name memory r)
  unfolding with_config
  with_config-Sound addr typ name memory (err e) v k s = tt
  with_config-Sound addr typ name memory (ok c) v k s = elim (Option-cases (group_peer q addr c)) [
    | inr (e, p) ↦ rw (p, Sound) tt
    | inl g ↦ rw (g, Sound) (record_device-Sound addr typ name memory c v k g (s c refl))
  ]

  grouped_device-Sound :
      (addr typ name memory : Bytes) (o : Option (QueryError E))
      → valid_address addr ≡ true
      → known_type typ ≡ true
      → ((c : Config) → q.load ≡ ok c → IsSound c)
      → Sound (grouped_device q addr typ name memory o)
  unfolding grouped_device
  grouped_device-Sound addr typ name memory (some e) v k s = tt
  grouped_device-Sound addr typ name memory none v k s = elim (Bool-cases (refused_size memory)) [
    | inl bad ↦ rw (bad, Sound) tt
    | inr good ↦ rw (good, Sound) (with_config-Sound addr typ name memory q.load v k s)
  ]

  checked_device-Sound :
      (addr typ name memory : Bytes) (r : Result (QueryError E) Bytes)
      → valid_address addr ≡ true
      → known_type typ ≡ true
      → ((c : Config) → q.load ≡ ok c → IsSound c)
      → Sound (checked_device q addr typ name memory r)
  unfolding checked_device
  checked_device-Sound addr typ name memory (err e) v k s = tt
  checked_device-Sound addr typ name memory (ok drv) v k s =
      grouped_device-Sound addr typ name memory (check_group q.pci addr) v k s

  typed_device-Sound :
      (addr name memory : Bytes) (r : Result (QueryError E) Bytes)
      → valid_address addr ≡ true
      → ((typ : Bytes) → r ≡ ok typ → known_type typ ≡ true)
      → ((c : Config) → q.load ≡ ok c → IsSound c)
      → Sound (typed_device q addr name memory r)
  unfolding typed_device
  typed_device-Sound addr name memory (err e) v k s = tt
  typed_device-Sound addr name memory (ok typ) v k s =
      checked_device-Sound addr typ name memory (guest_driver q.pci addr) v (k typ refl) s

  type_known : (addr typ : Bytes) → device_type q.pci addr ≡ ok typ → known_type typ ≡ true
  unfolding known_type str_eq
  type_known addr typ h = elim (device_type_known q.pci addr typ h) [
    | inl wlan ↦ rw wlan refl
    | inr net ↦ rw net refl
  ]

  enable-Sound :
      (arg name memory : Bytes)
      → ((c : Config) → q.load ≡ ok c → IsSound c)
      → Sound (enable q arg name memory)
  unfolding enable
  enable-Sound arg name memory s = elim (Option-cases (normalize_address arg)) [
    | inl bad ↦ rw (bad, Sound) tt
    | inr (addr, good) ↦ elim (Bool-cases q.installed) [
      | inr off ↦ rw (good, off, Sound) tt
      | inl on ↦
          rw (good, on, Sound)
            (typed_device-Sound addr name memory (device_type q.pci addr)
              (normalize_address_idem arg addr good).0 (type_known addr) s)
    ]
  ]

  of_Sound :
      (r : Result (EnableError E) Enabling) (en : Enabling)
      → Sound r
      → r ≡ ok en
      → IsSound en.config
  of_Sound (ok x) en s h = let e : x ≡ en = cc h in subst (λ (y : Enabling). IsSound y.config) e s
  of_Sound (err e) en s h = absurd (cc h)

  -- Enabling a device keeps the configuration sound: if in the configuration that is loaded every
  -- device is valid and no two of them share a name, an address or an IOMMU group, and the device is
  -- enabled, then this holds of the configuration that is recorded.
  pub enable-IsSound :
      (arg name memory : Bytes) (en : Enabling)
      → ((c : Config) → q.load ≡ ok c → IsSound c)
      → enable q arg name memory ≡ ok en
      → IsSound en.config
  enable-IsSound arg name memory en s h =
      of_Sound (enable q arg name memory) en (enable-Sound arg name memory s) h
