-- ===== src/Command/Tests.antt =====
-- A run of main with a command that fails.
use vkage.Base.{ℕ, ◌≡◌, refl, true, List, [], ◌∷◌, Option, some, Bytes, codes, str_eq}
use vkage.Command.{Command, cmd_list, command_of, main, warn_line}
use vkage.Command.Lines.{IsLine, main-IsLine}

abbrev failing : Command → List Bytes → ℕ → Option Bytes × ℕ
failing cmd args w = (some (codes "first\nsecond\n"), 7)

warned : warn_line true (codes "first\nsecond\n\n") ≡ codes "<4>invirtio: first second\n"
unfolding warn_line str_eq
warned = refl

is_list : command_of (codes "list") ≡ some cmd_list
unfolding command_of str_eq
is_list = refl

main-IsLine_example :
    ((main (λ (w : ℕ). true) failing (codes "list" ∷ []) 3).status ≡ 1)
    × ((main (λ (w : ℕ). true) failing (codes "list" ∷ []) 3).world ≡ 7)
    × IsLine (codes "<3>invirtio: ") (main (λ (w : ℕ). true) failing (codes "list" ∷ []) 3).stderr
main-IsLine_example =
    main-IsLine (λ w. true) failing (codes "list") [] cmd_list (codes "first\nsecond\n") 3 7 is_list
      refl
