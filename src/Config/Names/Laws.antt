-- ===== src/Config/Names/Laws.antt =====
-- The names that `defaultName` gives are valid, and different for different addresses.
use vkage.Base.{
  suc, ◌≤◌, ◌≡◌, refl, sym, ap, ◌∙◌, ◌⊎◌, inl, inr, true, ◌||◌, List, [], ◌∷◌, ◌++◌, map, some,
  Bytes, codes, trim_prefix, cut_prefix, str_eq, ◌==◌, length, arith, Option-cases, All,
}
use vkage.Pci.Address.{
  ByteClass, hex, octal, only, has_class, matches, address_pattern, bus_pattern, valid_address,
}
use vkage.Config.Names.{name_start, name_rest, name_re, check_name, dashed, default_name}

length-matches : (ps : List ByteClass) (s : Bytes) → matches ps s ≡ true → length s ≡ length ps
unfolding matches
length-matches [] [] h = refl
length-matches [] (b ∷ s) h = cc
length-matches (p ∷ ps) [] h = cc
length-matches (p ∷ ps) (b ∷ s) h = ap suc (length-matches ps s (ground arith))

-- Two texts of one pattern are equal where they are equal with dashes.
dashed-inj :
    (ps : List ByteClass) (s t : Bytes)
    → matches ps s ≡ true
    → matches ps t ≡ true
    → map dashed s ≡ map dashed t
    → s ≡ t
unfolding matches has_class
dashed-inj [] [] [] hs ht e = refl
dashed-inj [] (b ∷ s) t hs ht e = cc
dashed-inj [] [] (c ∷ t) hs ht e = cc
dashed-inj (p ∷ ps) [] t hs ht e = cc
dashed-inj (p ∷ ps) (b ∷ s) [] hs ht e = cc
dashed-inj (hex ∷ ps) (b ∷ s) (c ∷ t) hs ht e = ground (arith, dashed-inj ps s t)
dashed-inj (octal ∷ ps) (b ∷ s) (c ∷ t) hs ht e = ground (arith, dashed-inj ps s t)
dashed-inj (only d ∷ ps) (b ∷ s) (c ∷ t) hs ht e = ground (arith, dashed-inj ps s t)

cut_prefix-append : (s p r : Bytes) → cut_prefix s p ≡ some r → s ≡ p ++ r
unfolding cut_prefix
cut_prefix-append s [] r e = ground arith
cut_prefix-append [] (c ∷ p) r e = cc
cut_prefix-append (b ∷ s) (c ∷ p) r e = ground (arith, cut_prefix-append s p r)

-- The part of an address that its name holds: all of it, or what follows the domain 0000.
data Trimmed (addr : Bytes) : Type 0 where
  whole : trim_prefix addr (codes "0000:") ≡ addr → Trimmed addr
  domain :
      (r : Bytes)
      → trim_prefix addr (codes "0000:") ≡ r
      → addr ≡ codes "0000:" ++ r
      → matches bus_pattern r ≡ true
      → Trimmed addr

trimmed : (addr : Bytes) → valid_address addr ≡ true → Trimmed addr
unfolding trim_prefix valid_address matches has_class
trimmed addr v = elim (Option-cases (cut_prefix addr (codes "0000:"))) [
  | inl e ↦ whole (rw e refl)
  | inr (r, e) ↦
      let is : addr ≡ codes "0000:" ++ r = cut_prefix-append addr (codes "0000:") r e in
      domain r (rw e refl) is (ap (matches address_pattern) (sym is) ∙ v)
]

append_cancel : (t s u : Bytes) → t ++ s ≡ t ++ u → s ≡ u
append_cancel [] s u e = e
append_cancel (b ∷ t) s u e = append_cancel t s u (cc e)

length-dashed : (s : Bytes) → length (map dashed s) ≡ length s
length-dashed [] = refl
length-dashed (b ∷ s) = ap suc (length-dashed s)

dashed-length : (s t : Bytes) → map dashed s ≡ map dashed t → length s ≡ length t
dashed-length s t e = sym (length-dashed s) ∙ ap length e ∙ length-dashed t

Trimmed-inj :
    (a b : Bytes)
    → valid_address a ≡ true
    → valid_address b ≡ true
    → Trimmed a
    → Trimmed b
    → map dashed (trim_prefix a (codes "0000:")) ≡ map dashed (trim_prefix b (codes "0000:"))
    → a ≡ b
unfolding valid_address
Trimmed-inj a b va vb (whole ea) (whole eb) e =
    dashed-inj address_pattern a b va vb (ap (map dashed) (sym ea) ∙ e ∙ ap (map dashed) eb)
Trimmed-inj a b va vb (domain r ea ia ma) (domain u eb ib mb) e =
    let same =
      dashed-inj bus_pattern r u ma mb (ap (map dashed) (sym ea) ∙ e ∙ ap (map dashed) eb) in
    ia ∙ ap (λ x. codes "0000:" ++ x) same ∙ sym ib
Trimmed-inj a b va vb (whole ea) (domain u eb ib mb) e =
    let n = dashed-length a u (ap (map dashed) (sym ea) ∙ e ∙ ap (map dashed) eb) in
    absurd (omega (arith, n, length-matches address_pattern a va, length-matches bus_pattern u mb))
Trimmed-inj a b va vb (domain r ea ia ma) (whole eb) e =
    let n = dashed-length r b (ap (map dashed) (sym ea) ∙ e ∙ ap (map dashed) eb) in
    absurd (omega (arith, n, length-matches address_pattern b vb, length-matches bus_pattern r ma))

-- Two devices of one type with different valid addresses get different default names.
pub default_name_inj :
    (typ a b : Bytes)
    → valid_address a ≡ true
    → valid_address b ≡ true
    → default_name typ a ≡ default_name typ b
    → a ≡ b
unfolding default_name
default_name_inj typ a b va vb e =
    Trimmed-inj a b va vb (trimmed a va) (trimmed b vb) (cc (append_cancel typ _ _ e))

-- A class whose bytes a name may hold once they are dashed.
abbrev IsNameClass : ByteClass → Type 0
IsNameClass hex = Unit
IsNameClass octal = Unit
IsNameClass (only c) = (name_start (dashed c) || dashed c == b'-') ≡ true

name_rest-dashed :
    (ps : List ByteClass) (s : Bytes)
    → All IsNameClass ps
    → matches ps s ≡ true
    → name_rest (map dashed s) ≡ true
unfolding matches has_class name_rest
name_rest-dashed [] [] n h = refl
name_rest-dashed [] (b ∷ s) n h = cc
name_rest-dashed (p ∷ ps) [] n h = refl
name_rest-dashed (hex ∷ ps) (b ∷ s) (n, ns) h = ground (arith, name_rest-dashed ps s ns)
name_rest-dashed (octal ∷ ps) (b ∷ s) (n, ns) h = ground (arith, name_rest-dashed ps s ns)
name_rest-dashed (only c ∷ ps) (b ∷ s) (n, ns) h =
    let is : b ≡ c = ground arith in rw (is, n, name_rest-dashed ps s ns (ground arith)) refl

abbrev name_classes : All IsNameClass address_pattern
name_classes = (tt, (tt, (tt, (tt, (refl, (tt, (tt, (refl, (tt, (tt, (refl, (tt, tt))))))))))))

-- What the name holds of a valid address is short and of a name's bytes.
Trimmed-name :
    (a : Bytes)
    → valid_address a ≡ true
    → Trimmed a
    → (name_rest (map dashed (trim_prefix a (codes "0000:"))) ≡ true)
      × (length (map dashed (trim_prefix a (codes "0000:"))) ≤ 12)
unfolding valid_address
Trimmed-name a v (whole e) = rw e (
  name_rest-dashed address_pattern a name_classes v,
  omega (arith, length-dashed a, length-matches address_pattern a v),
)
Trimmed-name a v (domain r e i m) = rw e (
  name_rest-dashed bus_pattern r name_classes.1.1.1.1.1 m,
  omega (arith, length-dashed r, length-matches bus_pattern r m),
)

-- The default name of a WiFi or Ethernet device at a valid address passes `checkName`.
pub check_name-default_name :
    (typ addr : Bytes)
    → (typ ≡ codes "wlan") ⊎ (typ ≡ codes "net")
    → valid_address addr ≡ true
    → check_name (default_name typ addr) ≡ true
unfolding check_name default_name name_re name_rest str_eq
check_name-default_name typ addr (inl w) v =
    let (rest, short) = Trimmed-name addr v (trimmed addr v) in rw w (ground (arith, rest, short))
check_name-default_name typ addr (inr n) v =
    let (rest, short) = Trimmed-name addr v (trimmed addr v) in rw n (ground (arith, rest, short))
