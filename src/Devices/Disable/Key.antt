-- ===== src/Devices/Disable/Key.antt =====
-- The names and the addresses that `cmdDisable` of tools/cmd/invirtio/devices.go accepts.
use vkage.Base.{ℕ, ◌≡◌, refl, true, [], ◌∷◌, map, none, Bytes, lower, count, arith, false}
use vkage.Pci.Address.{address_pattern, valid_address, normalize_address}
use vkage.Pci.Address.Laws.{count-matches, map-lower-matches, low_classes, normalize_valid}
use vkage.Config.Names.{name_start, name_rest, name_re, check_name}
use vkage.Devices.Disable.{of_normalized, disable_key}
use vkage.Config.Devices.{Entry}
use vkage.Config.Devices.Laws.{IsValid}

name_start-lower : (b : ℕ) → name_start b ≡ true → lower b ≡ b
name_start-lower b h = ground arith

name_rest-lower : (s : Bytes) → name_rest s ≡ true → map lower s ≡ s
unfolding name_rest
name_rest-lower [] h = refl
name_rest-lower (b ∷ s) h =
    let same : lower b ≡ b = ground arith in rw (same, name_rest-lower s (ground arith)) refl

name_rest-count : (s : Bytes) → name_rest s ≡ true → count b':' s ≡ 0
unfolding name_rest count
name_rest-count [] h = refl
name_rest-count (b ∷ s) h = ground (arith, name_rest-count s)

name_re_rest : (s : Bytes) → name_re s ≡ true → name_rest s ≡ true
unfolding name_re name_rest
name_re_rest [] h = cc
name_re_rest (b ∷ s) h = ground arith

check_name_rest : (s : Bytes) → check_name s ≡ true → name_rest s ≡ true
unfolding check_name
check_name_rest s h = name_re_rest s (ground arith)

no_address : (s : Bytes) → count b':' s ≡ 0 → valid_address s ≡ false
unfolding valid_address
no_address s none' = ground (arith, count-matches address_pattern s)

no_normalized : (s : Bytes) → name_rest s ≡ true → normalize_address s ≡ none
unfolding normalize_address
no_normalized s rest =
    rw (name_rest-lower s rest, name_rest-count s rest, no_address s (name_rest-count s rest)) refl

disable_key-check_name : (s : Bytes) → check_name s ≡ true → disable_key s ≡ s
unfolding disable_key of_normalized
disable_key-check_name s h =
    let rest = check_name_rest s h in rw (name_rest-lower s rest, no_normalized s rest) refl

disable_key-valid_address : (s : Bytes) → valid_address s ≡ true → disable_key s ≡ s
unfolding disable_key of_normalized valid_address
disable_key-valid_address s v =
    rw (map-lower-matches address_pattern s low_classes v, normalize_valid s v) refl

-- `disable` finds a device of a valid configuration by the name and by the address that the
-- configuration stores: neither is changed before it is looked up.
pub disable_key-IsValid :
    (e : Entry)
    → IsValid e
    → (disable_key e.name ≡ e.name) × (disable_key e.device.address ≡ e.device.address)
disable_key-IsValid e v =
    (disable_key-check_name e.name v.named, disable_key-valid_address e.device.address v.addressed)
