-- ===== src/Config/Names.antt =====
-- `checkName` and `defaultName` of tools/cmd/invirtio/config.go.
pub mod Laws
use vkage.Base.{
  ℕ, Bool, true, false, not, ◌&&◌, ◌||◌, List, [], ◌∷◌, ◌++◌, map, Bytes, codes, trim_prefix,
  str_eq, ◌==◌, leb, if◌then◌else◌, ltb, length,
}

-- `[a-z0-9]`.
abbrev pub name_start : ℕ → Bool
name_start b = leb b'a' b && leb b b'z' || leb b'0' b && leb b b'9'

unfoldable pub name_rest : Bytes → Bool
name_rest [] = true
name_rest (b ∷ s) = (name_start b || b == b'-') && name_rest s

-- `nameRE`.
unfoldable pub name_re : Bytes → Bool
unfolding name_rest
name_re [] = false
name_re (b ∷ s) = name_start b && name_rest s && leb (length s) 31

-- Whether `checkName` returns nil.
unfoldable pub check_name : Bytes → Bool
unfolding name_re
check_name name =
    name_re name && not (str_eq name (codes "control")) && not (str_eq name (codes "invirtio"))

-- The replacer's byte for a byte.
abbrev pub dashed : ℕ → ℕ
dashed b = if b == b':' || b == b'.' then b'-' else b

unfoldable pub default_name : Bytes → Bytes → Bytes
default_name typ addr = typ ++ b'-' ∷ map dashed (trim_prefix addr (codes "0000:"))
