-- ===== src/Console/Client.antt =====
-- `cmdConsole` and `utf8Locale` of tools/cmd/invirtio/console.go: the header that the client sends,
-- and its loop over standard input. Reads of the terminal and the connection are arguments.
use vkage.Base.{
  ℕ, ◌/◌, ◌%◌, ◌<◌, ◌≡◌, refl, Bool, true, false, ◌||◌, List, [], ◌∷◌, ◌++◌, Option, none, some,
  arith, Bytes, codes, ◌==◌, if◌then◌else◌, map, lower, has_prefix, inl, inr, Bool-cases, All, ◌≢◌,
  ap, sym,
}
use mathlib.Core.Path.{subst}
use mathlib.Core.List.{flatten}
use vkage.Console.Server.{ConsoleServer, register, resize, attach, uint16}

abbrev pub detach_key : ℕ
detach_key = 0x1d

-- `binary.BigEndian.PutUint16` of a `uint16(n)`.
abbrev put_uint16 : ℕ → Bytes
put_uint16 n = (n / 256 % 256) ∷ (n % 256) ∷ []

-- The header; `none` if `term.GetSize` fails.
unfoldable pub header : Option (ℕ × ℕ) → Bytes
header none = 0 ∷ 0 ∷ 0 ∷ 0 ∷ []
header (some (cols, rows)) = put_uint16 rows ++ put_uint16 cols

-- The server reads from the client's header the size that the client has, for every size that fits
-- in 16 bits, and a client that knows no size leaves the terminal's size alone.
pub attach-header :
    (fails : Bool) (s : ConsoleServer) (cols rows : ℕ)
    → cols < 65536
    → rows < 65536
    → (attach fails s (header (some (cols, rows))) ≡ register (resize fails s rows cols))
      × (attach fails s (header none) ≡ register s)
unfolding attach header resize
attach-header fails s cols rows h k =
    let e : uint16 (rows / 256 % 256) (rows % 256) ≡ rows = omega arith in
    let e' : uint16 (cols / 256 % 256) (cols % 256) ≡ cols = omega arith in (rw (e, e'), refl)

-- One round of the loop over stdin: the bytes read, whether the read failed, and whether writing
-- them to the connection fails.
pub record Read : Type 0 where
  pub bytes : Bytes
  pub read_fails : Bool
  pub write_fails : Bool

-- How the loop ends: detached or at the end of the input, or with the connection's error.
pub data Ending : Type 0 where
  finished broken : Ending

-- The bytes before the first detach key, and whether there is one: `for i := 0; i < n; i++`.
pub before_key : Bytes → Bytes × Bool
before_key [] = ([], false)
before_key (b ∷ p) =
    if b == detach_key then ([], true) else (let (q, found) = before_key p in (b ∷ q, found))

-- What is written to the connection, and how the loop ends; `none` while it waits for a read.
unfoldable pub stdin_loop : List Read → Bytes × Option Ending
unfolding before_key
stdin_loop [] = ([], none)
stdin_loop (r ∷ rs) =
    let (p, found) = before_key r.bytes in
    let (rest, ending) = stdin_loop rs in
    if found
    then (p, some finished)
    else if r.write_fails
    then ([], some broken)
    else if r.read_fails
    then (r.bytes, some finished)
    else (r.bytes ++ rest, ending)

before_key_all : (p : Bytes) → (before_key p).1 ≡ false → (before_key p).0 ≡ p
unfolding before_key
before_key_all [] h = refl
before_key_all (b ∷ p) h = ground (arith, before_key_all p)

before_key-append :
    (p q : Bytes)
    → before_key (p ++ q)
      ≡ (if (before_key p).1 then before_key p else (p ++ (before_key q).0, (before_key q).1))
unfolding before_key
before_key-append [] q = refl
before_key-append (b ∷ p) q = ground (arith, before_key-append p q)

-- Reads that all succeed, and whose bytes the connection takes.
abbrev pub works : Bytes → Read
works p = record { bytes = p; read_fails = false; write_fails = false }

abbrev pub ending_of : Bool → Option Ending
ending_of found = if found then some finished else none

stdin_loop_joined :
    (reads : List Bytes)
    → stdin_loop (map works reads)
      ≡ ((before_key (flatten reads)).0, ending_of (before_key (flatten reads)).1)
unfolding stdin_loop before_key flatten
stdin_loop_joined [] = refl
stdin_loop_joined (p ∷ ps) = elim (Bool-cases (before_key p).1) [
  | inl key ↦ rw (before_key-append p (flatten ps), key, key)
  | inr plain ↦ rw (before_key-append p (flatten ps), plain, stdin_loop_joined ps)
]

-- Of what is typed, what is sent and how the loop ends: it waits for more where Ctrl-], the byte 0x1d,
-- is not among it, and otherwise what comes before the first one is sent.
pub data Sent (typed sent : Bytes) (ending : Option Ending) : Type 0 where
  whole : typed ≡ sent → All (λ b. b ≢ 0x1d) sent → ending ≡ none → Sent typed sent ending
  detached :
      (later : Bytes)
      → typed ≡ sent ++ 0x1d ∷ later
      → All (λ b. b ≢ 0x1d) sent
      → ending ≡ some finished
      → Sent typed sent ending

before_key-Sent : (s : Bytes) → Sent s (before_key s).0 (ending_of (before_key s).1)
unfolding before_key
before_key-Sent [] = whole refl tt refl
before_key-Sent (b ∷ p) = elim (Bool-cases (b == detach_key)) [
  | inl key ↦ let e : b ≡ 0x1d = ground arith in rw (key, e) (detached p refl tt refl)
  | inr plain ↦
      let n : b ≢ 0x1d = ground arith in
      rw plain (elim (before_key-Sent p) [
        | whole e h o ↦ whole (ap (◌∷◌ b) e) (n, h) o
        | detached later e h o ↦ detached later (ap (◌∷◌ b) e) (n, h) o
      ])
]

-- However stdin is split into reads that succeed and whose bytes the connection takes: the client
-- sends exactly the bytes before the first 0x1d (Ctrl-]) and ends, and where there is none it sends
-- all bytes and waits.
pub stdin_loop-flatten :
    (reads : List Bytes)
    → Sent (flatten reads) (stdin_loop (map works reads)).0 (stdin_loop (map works reads)).1
stdin_loop-flatten reads =
    subst (λ (r : Bytes × Option Ending). Sent (flatten reads) r.0 r.1)
      (sym (stdin_loop_joined reads)) (before_key-Sent (flatten reads))

-- `strings.Contains`.
contains : Bytes → Bytes → Bool
contains [] part = has_prefix [] part
contains (c ∷ s) part = has_prefix (c ∷ s) part || contains s part

-- Over the values of LC_ALL, LC_CTYPE and LANG, in that order; an unset one is empty.
unfoldable pub utf8_locale : List Bytes → Bool
unfolding contains has_prefix
utf8_locale [] = false
utf8_locale ([] ∷ vs) = utf8_locale vs
utf8_locale ((c ∷ l) ∷ vs) =
    let low = map lower (c ∷ l) in contains low (codes "utf-8") || contains low (codes "utf8")
