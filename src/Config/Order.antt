-- ===== src/Config/Order.antt =====
-- `names` of tools/cmd/invirtio/config.go: the order in which the devices are gone through.
pub mod Sorted
use vkage.Base.{Bool, true, false, List, [], ◌∷◌, map, Bytes, leb, ltb, ◌==◌, if◌then◌else◌}
use vkage.Config.Devices.{Config, Entry}

-- `<=` on strings, byte by byte.
unfoldable pub str_le : Bytes → Bytes → Bool
str_le [] t = true
str_le (b ∷ s) [] = false
str_le (b ∷ s) (c ∷ t) = if b == c then str_le s t else ltb b c

pub insert_entry : Entry → Config → Config
insert_entry e [] = e ∷ []
insert_entry e (x ∷ xs) = if str_le e.name x.name then e ∷ (x ∷ xs) else x ∷ insert_entry e xs

-- The entries in the order that `sort.Strings` gives their names.
unfoldable pub sorted : Config → Config
unfolding insert_entry
sorted [] = []
sorted (e ∷ es) = insert_entry e (sorted es)

unfoldable pub names : Config → List Bytes
unfolding sorted
names c = map (λ (e : Entry). e.name) (sorted c)
