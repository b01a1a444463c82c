-- ===== src/Harness/Counters.antt =====
-- `ParseCounters` of tools/internal/harness/harness.go: the counters of /proc/vduse_guest. Its regular
-- expressions are read on bytes; neither has two ways to match. An int64 is its 64 bits.
use vkage.Base.{
  ℕ, ◌+◌, Bool, true, ◌&&◌, ◌||◌, List, [], ◌∷◌, ◌++◌, Option, none, some, Bytes, codes, cut_prefix,
  split, is_digit, leb, ◌==◌, if◌then◌else◌,
}
use vkage.Config.Sizes.{max_int64}
use vkage.Report.Memory.{Keyed, parse_int}

-- `\s` and `\w`.
re_space : ℕ → Bool
re_space b = b == 0x09 || b == 0x0a || b == 0x0c || b == 0x0d || b == 0x20

re_word : ℕ → Bool
re_word b = is_digit b || leb b'a' b && leb b b'z' || leb b'A' b && leb b b'Z' || b == b'_'

-- The longest beginning of which every byte is such, and what follows it.
unfoldable pub span : (ℕ → Bool) → Bytes → Bytes × Bytes
span p [] = ([], [])
span p (b ∷ s) = let (t, r) = span p s in if p b then (b ∷ t, r) else ([], b ∷ s)

all_space : Bytes → Bool
unfolding re_space
all_space [] = true
all_space (b ∷ s) = let rest = all_space s in re_space b && rest

-- Digits, one at least, and spaces up to the end.
digits_end : Bytes × Bytes → Option Bytes
unfolding all_space
digits_end ([], r) = none
digits_end (d ∷ t, r) = if all_space r then some (d ∷ t) else none

-- What is behind spaces, of which there is one at least.
behind_spaces : Bytes × Bytes → Option Bytes
behind_spaces ([], r) = none
behind_spaces (b ∷ t, r) = some r

queue_body : Option Bytes → Option Bytes
unfolding digits_end span
queue_body none = none
queue_body (some r) = digits_end (span is_digit r)

queue_behind : Option Bytes → Option Bytes
unfolding queue_body
queue_behind none = none
queue_behind (some s) = queue_body (cut_prefix s (codes "queue "))

-- `queueRE`: the queue's number.
queue_of : Bytes → Option Bytes
unfolding queue_behind behind_spaces re_space
queue_of line = queue_behind (behind_spaces (span re_space line))

signed : Bytes → Option Bytes → Option Bytes
signed sign none = none
signed sign (some ds) = some (sign ++ ds)

number_end : Bytes → Option Bytes
unfolding signed digits_end
number_end [] = none
number_end (b ∷ s) =
    if b == b'-'
    then signed (codes "-") (digits_end (span is_digit s))
    else digits_end (span is_digit (b ∷ s))

named : Bytes → Option Bytes → Option (Bytes × Bytes)
named name none = none
named name (some number) = some (name, number)

number_behind : Option Bytes → Option Bytes
unfolding number_end
number_behind none = none
number_behind (some s) = number_end s

counter_word : Bytes × Bytes → Option (Bytes × Bytes)
unfolding named number_behind behind_spaces re_space
counter_word ([], r) = none
counter_word (b ∷ t, r) = named (b ∷ t) (number_behind (behind_spaces (span re_space r)))

counter_behind : Option Bytes → Option (Bytes × Bytes)
unfolding counter_word re_word
counter_behind none = none
counter_behind (some s) = counter_word (span re_word s)

-- `counterRE`: the counter's name and its number.
counter_of : Bytes → Option (Bytes × Bytes)
unfolding counter_behind
counter_of line = counter_behind (behind_spaces (span re_space line))

-- `strconv.ParseInt` gives the limit for a number beyond it.
limit : Bytes → ℕ
limit [] = 0
limit (b ∷ s) = if b == b'-' then max_int64 + 1 else max_int64

number_or_limit : Bytes → Option ℕ → ℕ
unfolding limit
number_or_limit s none = limit s
number_or_limit s (some n) = n

with_counter : Bytes → Option (Bytes × Bytes) → Keyed → Keyed
unfolding number_or_limit parse_int
with_counter prefix none m = m
with_counter prefix (some (name, number)) m =
    (prefix ++ name, number_or_limit number (parse_int number)) ∷ m

-- The loop over the lines, with the prefix so far; the next step is of a line's queue, if it is one.
count_line : List Bytes → Bytes → Keyed → Keyed
unfolding with_counter queue_of counter_of
count_line [] prefix m = m
count_line (l ∷ ls) prefix m =
    let other = count_line ls prefix (with_counter prefix (counter_of l) m) in
    elim (queue_of l) [ none ↦ other | some q ↦ count_line ls (b'q' ∷ (q ++ codes "_")) m ]

unfoldable pub parse_counters : Bytes → Keyed
unfolding count_line
parse_counters text = count_line (split text b'\n') [] []
