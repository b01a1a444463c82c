-- ===== src/Pci/Queries/Laws.antt =====
-- The types that `Type` gives are those that the configuration knows.
use vkage.Base.{◌≡◌, ◌⊎◌, inl, inr, [], ◌∷◌, Bytes, codes, arith, Result, ok, err}
use vkage.Pci.Address.{class_type}
use vkage.Pci.Queries.{PciReads, QueryError, found, found_class, device_type}

class_type_cases :
    (class : Bytes)
    → (class_type class ≡ codes "wlan") ⊎ (class_type class ≡ codes "net") ⊎ (class_type class ≡ [])
unfolding class_type
class_type_cases class = ground arith

of_found :
    {E : Type 0} (e : QueryError E) (s t : Bytes)
    → (s ≡ codes "wlan") ⊎ (s ≡ codes "net") ⊎ (s ≡ [])
    → found e s ≡ ok t
    → (t ≡ codes "wlan") ⊎ (t ≡ codes "net")
unfolding found
of_found e [] t c h = absurd (cc h)
of_found e (b ∷ s) t (inl w) h = inl (cc (h, w))
of_found e (b ∷ s) t (inr (inl n)) h = inr (cc (h, n))
of_found e (b ∷ s) t (inr (inr z)) h = absurd (cc z)

of_class :
    {E : Type 0} (addr t : Bytes) (r : Result E Bytes)
    → found_class addr r ≡ ok t
    → (t ≡ codes "wlan") ⊎ (t ≡ codes "net")
unfolding found_class
of_class addr t (err e) h = absurd (cc h)
of_class addr t (ok class) h = of_found _ (class_type class) t (class_type_cases class) h

-- The type of a device is one of the two.
pub device_type_known :
    {E : Type 0} (r : PciReads E) (addr typ : Bytes)
    → device_type r addr ≡ ok typ
    → (typ ≡ codes "wlan") ⊎ (typ ≡ codes "net")
unfolding device_type
device_type_known r addr typ h = of_class addr typ (r.class addr) h
