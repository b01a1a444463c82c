-- ===== src/Config/Order/Sorted.antt =====
-- Sorting keeps the devices and puts them in order.
use vkage.Base.{◌≡◌, refl, inl, inr, true, false, [], ◌∷◌, Bytes, arith, All, Bool-cases}
use mathlib.Core.List.{Perm}
use mathlib.Core.List.Perm
use vkage.Config.Devices.{Config, Entry}
use vkage.Config.Order.{str_le, insert_entry, sorted}

str_le_total : (s t : Bytes) → str_le s t ≡ false → str_le t s ≡ true
unfolding str_le
str_le_total [] t h = absurd (cc h)
str_le_total (b ∷ s) [] h = refl
str_le_total (b ∷ s) (c ∷ t) h = ground (arith, str_le_total s t)

pub str_le_trans : (s t u : Bytes) → str_le s t ≡ true → str_le t u ≡ true → str_le s u ≡ true
unfolding str_le
str_le_trans [] t u h k = refl
str_le_trans (b ∷ s) [] u h k = absurd (cc h)
str_le_trans (b ∷ s) (c ∷ t) [] h k = absurd (cc k)
str_le_trans (b ∷ s) (c ∷ t) (d ∷ u) h k = ground (arith, str_le_trans s t u)

-- Each name is before all that follow it.
abbrev pub IsSorted : Config → Type 0
IsSorted [] = Unit
IsSorted (e ∷ es) = All (λ (x : Entry). str_le e.name x.name ≡ true) es × IsSorted es

abbrev Above : Bytes → Config → Type 0
Above s c = All (λ (x : Entry). str_le s x.name ≡ true) c

Above-trans : (s t : Bytes) (c : Config) → str_le s t ≡ true → Above t c → Above s c
Above-trans s t [] h a = tt
Above-trans s t (x ∷ xs) h (b, a) = (str_le_trans s t x.name h b, Above-trans s t xs h a)

insert_entry-Above :
    (s : Bytes) (e : Entry) (c : Config)
    → str_le s e.name ≡ true
    → Above s c
    → Above s (insert_entry e c)
unfolding insert_entry
insert_entry-Above s e [] h a = (h, tt)
insert_entry-Above s e (x ∷ xs) h (b, a) = elim (Bool-cases (str_le e.name x.name)) [
  | inl le ↦ rw le (h, (b, a))
  | inr gt ↦ rw gt (b, insert_entry-Above s e xs h a)
]

insert_entry-IsSorted : (e : Entry) (c : Config) → IsSorted c → IsSorted (insert_entry e c)
unfolding insert_entry
insert_entry-IsSorted e [] i = (tt, tt)
insert_entry-IsSorted e (x ∷ xs) (a, i) = elim (Bool-cases (str_le e.name x.name)) [
  | inl le ↦ rw le ((le, Above-trans e.name x.name xs le a), (a, i))
  | inr gt ↦ rw gt (
    insert_entry-Above x.name e xs (str_le_total e.name x.name gt) a,
    insert_entry-IsSorted e xs i,
  )
]

insert_entry-perm : (e : Entry) (c : Config) → Perm (insert_entry e c) (e ∷ c)
unfolding insert_entry
insert_entry-perm e [] = Perm.refl (e ∷ [])
insert_entry-perm e (x ∷ xs) = elim (Bool-cases (str_le e.name x.name)) [
  | inl le ↦ rw le (Perm.refl (e ∷ x ∷ xs))
  | inr gt ↦ rw gt (Perm.trans (Perm.cons x (insert_entry-perm e xs)) (Perm.swap e x xs))
]

pub sorted-perm : (c : Config) → Perm (sorted c) c
unfolding sorted
sorted-perm [] = Perm.refl []
sorted-perm (e ∷ es) = Perm.trans (insert_entry-perm e (sorted es)) (Perm.cons e (sorted-perm es))

sorted-IsSorted : (c : Config) → IsSorted (sorted c)
unfolding sorted
sorted-IsSorted [] = tt
sorted-IsSorted (e ∷ es) = insert_entry-IsSorted e (sorted es) (sorted-IsSorted es)

-- The devices are gone through in the order of their names, each device once.
pub sorted_lem : (c : Config) → Perm (sorted c) c × IsSorted (sorted c)
sorted_lem c = (sorted-perm c, sorted-IsSorted c)
