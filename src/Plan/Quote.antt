-- ===== src/Plan/Quote.antt =====
-- `shellQuote` and `showCmd` of tools/cmd/invirtio/plan.go.
pub mod Shell
use vkage.Base.{
  ℕ, ◌≡◌, inl, inr, refl, ap, ◌∙◌, Bool, true, false, ◌&&◌, ◌||◌, List, [], ◌∷◌, ◌++◌, append-nil,
  append_assoc, map, Option, none, some, arith, Bytes, codes, ◌==◌, leb, if◌then◌else◌, Bool-cases,
}

abbrev pub within : ℕ → ℕ → ℕ → Bool
within lo hi b = leb lo b && leb b hi

-- The bytes of the set that `shellQuote` trims: those that need no quotes.
pub is_safe : ℕ → Bool
is_safe b =
    within b'a' b'z' b
    || within b'A' b'Z' b
    || within b'0' b'9' b
    || b == b'-'
    || b == b'_'
    || within b'.' b':' b
    || b == b'='
    || b == b'@'
    || b == b'%'
    || within b'+' b',' b

pub all_safe : Bytes → Bool
all_safe [] = true
all_safe (b ∷ s) = is_safe b && all_safe s

-- `strings.ReplaceAll(s, "'", `'\''`)`.
pub escape_quotes : Bytes → Bytes
escape_quotes [] = []
escape_quotes (b ∷ s) = if b == b'\'' then codes "'\\''" ++ escape_quotes s else b ∷ escape_quotes s

-- `strings.Trim` by a set leaves nothing exactly of a text of bytes of the set.
unfoldable pub shell_quote : Bytes → Bytes
unfolding all_safe is_safe escape_quotes
shell_quote [] = codes "''"
shell_quote (b ∷ s) =
    if all_safe (b ∷ s) then b ∷ s else b'\'' ∷ (escape_quotes (b ∷ s) ++ b'\'' ∷ [])

-- `strings.Join(words, " ")`.
pub spaced : List Bytes → Bytes
spaced [] = []
spaced (w ∷ ws) = b' ' ∷ (w ++ spaced ws)

unfoldable pub show_cmd : Bytes → List Bytes → Bytes
unfolding shell_quote spaced
show_cmd name args = shell_quote name ++ spaced (map shell_quote args)
