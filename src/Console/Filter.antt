-- ===== src/Console/Filter.antt =====
-- `escapeFilter` of tools/cmd/invirtio/console.go. Slices are values: `seq` is appended before the
-- buffer of `pending` is written again, and `rest` is a copy. `feed` and `text` call one another
-- for the bytes behind an invalid sequence; the calls take fuel, and `feed` gives them 4.
pub mod Wf
pub mod Fuel
pub mod Clean
pub mod Terminal
pub mod Chunks
pub mod Passes
use vkage.Base.{
  ℕ, zero, suc, Bool, true, false, not, ◌&&◌, ◌||◌, List, [], ◌∷◌, ◌++◌, ltb, leb, ◌==◌,
  if◌then◌else◌, Bytes, length, take, drop, get_or,
}
use vkage.Utf8.{rune_error, decode_rune, full_rune, within}

pub data FilterState : Type 0 where
  filter_text filter_escape filter_string filter_string_escape filter_drop : FilterState

pub record EscapeFilter : Type 0 where
  pub state : FilterState
  pub pending : Bytes

unfoldable pub opens_string : ℕ → Bool
opens_string c =
    c == b']'
    || c == b'P'
    || c == b'X'
    || c == b'^'
    || c == b'_'
    || c == b'k'
    || c == 0x9d
    || c == 0x90
    || c == 0x98
    || c == 0x9e
    || c == 0x9f

-- The bytes of "()*+-./".
unfoldable pub designates : ℕ → Bool
designates b = within b'(' b'+' b || within b'-' b'/' b

abbrev pub go_to : EscapeFilter → FilterState → EscapeFilter
go_to f s = record f { state = s }

-- A call that feeds bytes to the filter: the new filter and the output.
abbrev pub Feed : Type 0
Feed = EscapeFilter → ℕ → Bytes → EscapeFilter × Bytes

pub feed_rest : Feed → EscapeFilter → Bytes → Bytes → EscapeFilter × Bytes
feed_rest rec f [] out = (f, out)
feed_rest rec f (c ∷ rest) out = let (f', out') = rec f c out in feed_rest rec f' rest out'

-- The switch of `text` on a decoded rune: the filter with `pending` emptied, and the output.
pub text_rune : EscapeFilter → Bytes → ℕ → ℕ → Bytes → EscapeFilter × Bytes
unfolding opens_string
text_rune f pending r size out =
    let f' = record f { pending = [] } in
    if r == rune_error && size == 1
    then (if opens_string (get_or pending 0 0) then go_to f' filter_string else f', out)
    else if within 0x80 0x9f r
    then (if opens_string r then go_to f' filter_string else f', out)
    else (f', out ++ take size pending)

-- `text` behind its ASCII case: `pending` has the byte.
pub text_pending : Feed → EscapeFilter → Bytes → Bytes → EscapeFilter × Bytes
unfolding text_rune
text_pending rec f pending out =
    if not (full_rune pending)
    then (record f { pending = pending }, out)
    else (let (r, size) = decode_rune pending in
        let (f', out') = text_rune f pending r size out in
        feed_rest rec f' (drop size pending) out')

text_in : Bytes → Feed → EscapeFilter → ℕ → Bytes → EscapeFilter × Bytes
unfolding text_pending
text_in [] rec f b out =
    if ltb b 0x80
    then (if b == 0x1b then (go_to f filter_escape, out) else (f, out ++ b ∷ []))
    else text_pending rec f (b ∷ []) out
text_in (p ∷ ps) rec f b out = text_pending rec f (p ∷ (ps ++ b ∷ [])) out

pub text : Feed → EscapeFilter → ℕ → Bytes → EscapeFilter × Bytes
unfolding text_in
text rec f b out = text_in f.pending rec f b out

-- `case filterString, filterStringEscape`; the flag is `f.state == filterStringEscape`.
pub in_string : Bool → EscapeFilter → ℕ → Bytes → EscapeFilter × Bytes
in_string escaped f b out =
    if b == 0x07 || b == 0x9c || (escaped && b == b'\\')
    then (go_to f filter_text, out)
    else if b == 0x1b
    then (go_to f filter_string_escape, out)
    else (go_to f filter_string, out)

pub in_escape : Feed → EscapeFilter → ℕ → Bytes → EscapeFilter × Bytes
unfolding opens_string designates
in_escape txt f b out =
    if b == 0x1b || b == 0x7f
    then (f, out)
    else if b == 0x18 || b == 0x1a
    then (go_to f filter_text, out ++ b ∷ [])
    else if ltb b 0x20
    then (f, out ++ b ∷ [])
    else if leb 0x80 b
    then txt (go_to f filter_text) b out
    else if opens_string b
    then (go_to f filter_string, out)
    else if within 0x20 0x2f b && not (designates b)
    then (go_to f filter_drop, out)
    else (go_to f filter_text, out ++ 0x1b ∷ b ∷ [])

pub in_drop : Feed → EscapeFilter → ℕ → Bytes → EscapeFilter × Bytes
in_drop txt f b out =
    if b == 0x1b
    then (go_to f filter_escape, out)
    else if b == 0x18 || b == 0x1a
    then (go_to f filter_text, out ++ b ∷ [])
    else if ltb b 0x20
    then (f, out ++ b ∷ [])
    else if within 0x30 0x7e b
    then (go_to f filter_text, out)
    else if leb 0x80 b
    then txt (go_to f filter_text) b out
    else (f, out)

-- The switch of `feed` on the state, over a call of `text`.
pub feed_in : FilterState → Feed → EscapeFilter → ℕ → Bytes → EscapeFilter × Bytes
unfolding in_string in_escape in_drop
feed_in filter_string txt f b out = in_string false f b out
feed_in filter_string_escape txt f b out = in_string true f b out
feed_in filter_escape txt f b out = in_escape txt f b out
feed_in filter_drop txt f b out = in_drop txt f b out
feed_in filter_text txt f b out = txt f b out

-- Without fuel the byte is lost; `Fuel` shows that 4 is enough for every state of the filter.
unfoldable pub feed_fuel : ℕ → EscapeFilter → ℕ → Bytes → EscapeFilter × Bytes
unfolding text feed_in feed_rest
feed_fuel zero f b out = (f, out)
feed_fuel (suc n) f b out = feed_in f.state (text (feed_fuel n)) f b out

unfoldable pub feed : EscapeFilter → ℕ → Bytes → EscapeFilter × Bytes
unfolding feed_fuel
feed = feed_fuel 4

-- The loop of `Write` over its bytes.
unfoldable pub feed_all : EscapeFilter → Bytes → Bytes → EscapeFilter × Bytes
unfolding feed
feed_all f [] out = (f, out)
feed_all f (b ∷ p) out = let (f', out') = feed f b out in feed_all f' p out'

-- What a call of `Write` does: the filter after it, what the writer was given, and the count of
-- bytes that it returns, or the error of the writer.
pub record Written : Type 0 where
  pub filter : EscapeFilter
  pub given : Bytes
  pub count : ℕ
  pub failed : Bool

-- The writer `w` says of its argument whether writing it fails.
unfoldable pub write : (Bytes → Bool) → EscapeFilter → Bytes → Written
unfolding feed_all
write w f p =
    let (f', out) = feed_all f p [] in
    if w out
    then record { filter = f'; given = out; count = 0; failed = true }
    else record { filter = f'; given = out; count = length p; failed = false }

abbrev pub initial : EscapeFilter
initial = record { state = filter_text; pending = [] }

-- The reads that `io.Copy` passes on while the writer takes them: all that the writer is given.
unfoldable pub relay : EscapeFilter → List Bytes → Bytes
unfolding write
relay f [] = []
relay f (p ∷ ps) = let done = write (λ _. false) f p in done.given ++ relay done.filter ps
