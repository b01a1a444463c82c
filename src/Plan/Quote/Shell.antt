-- ===== src/Plan/Quote/Shell.antt =====
-- How a POSIX shell reads the words that `showCmd` of tools/cmd/invirtio/plan.go shows: the splitting
-- into words and the quotes. Assignments in front of a command and reserved words are not modelled.
use vkage.Base.{
  ℕ, ◌≡◌, inl, inr, refl, ap, ◌∙◌, Bool, true, false, ◌||◌, List, [], ◌∷◌, ◌++◌, append-nil,
  append_assoc, map, Option, none, some, arith, Bytes, codes, ◌==◌, leb, if◌then◌else◌, Bool-cases,
}
use vkage.Plan.Quote.{within, is_safe, all_safe, escape_quotes, shell_quote, spaced, show_cmd}

-- The bytes that mean more than themselves to a POSIX shell outside quotes.
is_special : ℕ → Bool
is_special b =
    leb b b' '
    || within b'!' b'$' b
    || within b'&' b'*' b
    || within b';' b'<' b
    || within b'>' b'?' b
    || within b'[' b'^' b
    || b == b'`'
    || within b'{' b'~' b

-- How a POSIX shell splits a line into words: in single quotes every byte but the quote stands for
-- itself, a backslash outside quotes takes the next byte as it is, and a space ends a word.
pub data Quoting : Type 0 where
  between outside inside escaped : Quoting

pub record Shell : Type 0 where
  pub quoting : Quoting
  pub word : Bytes
  pub words : List Bytes

abbrev keep : Shell → ℕ → Quoting → Shell
keep s b q = record s { quoting = q; word = s.word ++ b ∷ [] }

shell_outside : Shell → ℕ → Option Shell
unfolding is_special
shell_outside s b =
    if b == b' '
    then some (record { quoting = between; word = []; words = s.words ++ s.word ∷ [] })
    else if b == b'\''
    then some (record s { quoting = inside })
    else if b == b'\\'
    then some (record s { quoting = escaped })
    else if is_special b
    then none
    else some (keep s b outside)

shell_step : Quoting → Shell → ℕ → Option Shell
unfolding shell_outside
shell_step between s b =
    if b == b' ' then some s else shell_outside (record s { quoting = outside }) b
shell_step outside s b = shell_outside s b
shell_step inside s b =
    some (if b == b'\'' then record s { quoting = outside } else keep s b inside)
shell_step escaped s b = if b == b'\n' then none else some (keep s b outside)

shell_end : Quoting → Shell → Option (List Bytes)
shell_end between s = some s.words
shell_end outside s = some (s.words ++ s.word ∷ [])
shell_end inside s = none
shell_end escaped s = none

shell_run : Shell → Bytes → Option (List Bytes)
unfolding shell_step shell_end
shell_run s [] = shell_end s.quoting s
shell_run s (b ∷ t) = elim (shell_step s.quoting s b) [ none ↦ none | some s' ↦ shell_run s' t ]

-- The words of a line; `none` where a byte outside quotes means something else to the shell, or a
-- quote stays open.
pub shell_words : Bytes → Option (List Bytes)
unfolding shell_run
shell_words t = shell_run (record { quoting = between; word = []; words = [] }) t

abbrev at : Quoting → Bytes → List Bytes → Shell
at q w ws = record { quoting = q; word = w; words = ws }

safe_step :
    (w : Bytes) (ws : List Bytes) (b : ℕ) (t : Bytes)
    → is_safe b ≡ true
    → shell_run (at outside w ws) (b ∷ t) ≡ shell_run (at outside (w ++ b ∷ []) ws) t
unfolding shell_run is_safe
safe_step w ws b t h = ground arith

safe_word :
    (s w : Bytes) (ws : List Bytes) (t : Bytes)
    → all_safe s ≡ true
    → shell_run (at outside w ws) (s ++ t) ≡ shell_run (at outside (w ++ s) ws) t
unfolding all_safe
safe_word [] w ws t h = rw append-nil
safe_word (b ∷ s) w ws t h =
    safe_step w ws b (s ++ t) (ground arith)
    ∙ safe_word s (w ++ b ∷ []) ws t (ground arith)
    ∙ rw append_assoc

quote_step :
    (w : Bytes) (ws : List Bytes) (t : Bytes)
    → shell_run (at inside w ws) (codes "'\\''" ++ t) ≡ shell_run (at inside (w ++ b'\'' ∷ []) ws) t
unfolding shell_run
quote_step w ws t = refl

inside_step :
    (w : Bytes) (ws : List Bytes) (b : ℕ) (t : Bytes)
    → (b == b'\'') ≡ false
    → shell_run (at inside w ws) (b ∷ t) ≡ shell_run (at inside (w ++ b ∷ []) ws) t
unfolding shell_run
inside_step w ws b t h = rw h

quoted_word :
    (s w : Bytes) (ws : List Bytes) (t : Bytes)
    → shell_run (at inside w ws) (escape_quotes s ++ (b'\'' ∷ t))
      ≡ shell_run (at outside (w ++ s) ws) t
unfolding escape_quotes
quoted_word [] w ws t = unfold shell_run in rw append-nil
quoted_word (b ∷ s) w ws t = elim (Bool-cases (b == b'\'')) [
  | inl e ↦
      let is : b ≡ b'\'' = ground arith in
      rw (e, is)
        (quote_step w ws (escape_quotes s ++ (b'\'' ∷ t))
          ∙ quoted_word s (w ++ b'\'' ∷ []) ws t
          ∙ rw append_assoc)
  | inr e ↦ rw e (
      inside_step w ws b (escape_quotes s ++ (b'\'' ∷ t)) e
      ∙ quoted_word s (w ++ b ∷ []) ws t
      ∙ rw append_assoc)
]

quoted_whole :
    (s : Bytes) (ws : List Bytes) (t : Bytes)
    → shell_run (at outside [] ws) ((b'\'' ∷ (escape_quotes s ++ b'\'' ∷ [])) ++ t)
      ≡ shell_run (at outside s ws) t
unfolding shell_run
quoted_whole s ws t = rw (append_assoc (escape_quotes s) (b'\'' ∷ []) t) (quoted_word s [] ws t)

-- A quoted word is read back as the word, at the start of a word.
word_outside :
    (s : Bytes) (ws : List Bytes) (t : Bytes)
    → shell_run (at outside [] ws) (shell_quote s ++ t) ≡ shell_run (at outside s ws) t
unfolding shell_quote
word_outside [] ws t = unfold shell_run in refl
word_outside (b ∷ s) ws t = elim (Bool-cases (all_safe (b ∷ s))) [
  | inl safe ↦ rw safe (safe_word (b ∷ s) [] ws t safe)
  | inr other ↦ rw other (quoted_whole (b ∷ s) ws t)
]

-- A quoted word begins with no space.
opens_word :
    (s : Bytes) (ws : List Bytes) (t : Bytes)
    → shell_run (at between [] ws) (shell_quote s ++ t)
      ≡ shell_run (at outside [] ws) (shell_quote s ++ t)
unfolding shell_run shell_quote
opens_word [] ws t = refl
opens_word (b ∷ s) ws t = ground arith

word_between :
    (s : Bytes) (ws : List Bytes) (t : Bytes)
    → shell_run (at between [] ws) (shell_quote s ++ t) ≡ shell_run (at outside s ws) t
word_between s ws t = opens_word s ws t ∙ word_outside s ws t

next_word :
    (w : Bytes) (ws : List Bytes) (t : Bytes)
    → shell_run (at outside w ws) (b' ' ∷ t) ≡ shell_run (at between [] (ws ++ w ∷ [])) t
unfolding shell_run
next_word w ws t = refl

spaced_words :
    (args : List Bytes) (w : Bytes) (ws : List Bytes)
    → shell_run (at outside w ws) (spaced (map shell_quote args)) ≡ some (ws ++ w ∷ args)
unfolding spaced
spaced_words [] w ws = unfold shell_run in refl
spaced_words (a ∷ args) w ws =
    next_word w ws (shell_quote a ++ spaced (map shell_quote args))
    ∙ word_between a (ws ++ w ∷ []) (spaced (map shell_quote args))
    ∙ spaced_words args a (ws ++ w ∷ [])
    ∙ ap some (append_assoc ws (w ∷ []) (a ∷ args))

-- The line that is shown for a command is read by a shell as the command's name and arguments, each
-- as it is, whatever bytes they hold.
pub shell_words-show_cmd :
    (name : Bytes) (args : List Bytes) → shell_words (show_cmd name args) ≡ some (name ∷ args)
unfolding shell_words show_cmd
shell_words-show_cmd name args =
    word_between name [] (spaced (map shell_quote args)) ∙ spaced_words args name []
