-- ===== src/Plan/Stages.antt =====
-- `action`, `stage` and `runStages` of tools/cmd/invirtio/plan.go. An action's `run` is a function
-- over a world of the client's choice, with `none` for a nil error. What is printed is kept as a
-- list of texts, one for each call of fmt.
pub mod Run
pub mod Ended
pub mod Order
pub mod Refused
use vkage.Base.{
  ℕ, suc, ◌+◌, Bool, true, false, not, ◌&&◌, ◌||◌, List, [], ◌∷◌, ◌++◌, map, Option, none, some,
  Bytes, codes, decimal, split, length, if◌then◌else◌, ◌==◌,
}

pub record Action (World E : Type 0) : Type 0 where
  pub show : Bytes
  pub run : World → Option E × World

pub record Stage (World E : Type 0) : Type 0 where
  pub title : Bytes
  pub notes : Bytes
  pub actions : List (Action World E)

pub data StageError (E : Type 0) : Type 0 where
  needs_terminal : StageError E
  stopped : StageError E
  failed : E → StageError E

-- Standard input: whether each Enter that is waited for comes.
pub record Console (World : Type 0) : Type 0 where
  pub printed : List Bytes
  pub enters : List Bool
  pub world : World

indented : List Bytes → List Bytes
indented [] = []
indented (l ∷ ls) = (codes "  $ " ++ l) ∷ map (λ m. codes "    " ++ m) ls

-- A command's lines: only the first has a prompt.
unfoldable pub show_lines : Bytes → List Bytes
unfolding indented
show_lines show = indented (split show b'\n')

note_lines : Bytes → List Bytes
note_lines [] = []
note_lines (b ∷ s) = map (λ m. codes "  " ++ m) (split (b ∷ s) b'\n')

abbrev prompt : Bytes
prompt = codes "Press Enter to run these, or Ctrl-C to stop. "

pub print : {World : Type 0} → List Bytes → Console World → Console World
print ls c = record c { printed = c.printed ++ ls }

module _ {World E : Type 0} where
  all_lines : List (Action World E) → List Bytes
  unfolding show_lines
  all_lines [] = []
  all_lines (a ∷ as') = show_lines a.show ++ all_lines as'

  command_lines : List (Action World E) → List Bytes
  unfolding all_lines
  command_lines [] = codes "  Nothing to do." ∷ []
  command_lines (a ∷ as') = all_lines (a ∷ as')

  -- What a stage prints before it runs; `i` counts from 0.
  unfoldable pub stage_lines : ℕ → ℕ → Stage World E → List Bytes
  unfolding note_lines command_lines
  stage_lines i n s =
      (if i == 0 then [] else [] ∷ [])
      ++ ((codes "Stage "
            ++ (decimal (i + 1) ++ (codes " of " ++ (decimal n ++ (codes ": " ++ s.title)))))
          ∷ (note_lines s.notes ++ command_lines s.actions))

  -- The loop over a stage's actions: the first error ends it.
  unfoldable pub run_actions : List (Action World E) → World → Option (StageError E) × World
  run_actions [] w = (none, w)
  run_actions (a ∷ as') w =
      let (e, w') = a.run w in
      let rest = run_actions as' w' in elim e [ none ↦ rest | some e ↦ (some (failed e), w') ]

  abbrev run_now : List (Action World E) → Console World → Option (StageError E) × Console World
  run_now actions c = let (e, w) = run_actions actions c.world in (e, record c { world = w })

  -- With each Enter that comes one is used up.
  confirm :
      List (Action World E) → List Bool → Console World → Option (StageError E) × Console World
  unfolding run_actions
  confirm actions (true ∷ enters) c = run_now actions (record c { enters = enters })
  confirm actions (false ∷ enters) c = (some stopped, record c { enters = enters })
  confirm actions [] c = (some stopped, c)

  -- The end of a round of the loop for a stage with actions that is not only shown.
  pub run_stage :
      Bool → List (Action World E) → Console World → Option (StageError E) × Console World
  unfolding run_actions print confirm
  run_stage assume_yes actions c =
      if assume_yes then run_now actions c else confirm actions c.enters (print (prompt ∷ []) c)

  unfoldable pub is_empty : List (Action World E) → Bool
  is_empty [] = true
  is_empty (_ ∷ _) = false

  pub stage_loop :
      Bool
      → Bool
      → ℕ
      → ℕ
      → List (Stage World E)
      → Console World
      → Option (StageError E) × Console World
  unfolding run_stage is_empty print
  stage_loop dry assume_yes n i [] c = (
    none,
    if dry then print (codes "\nThis was a dry run, and nothing was changed." ∷ []) c else c,
  )
  stage_loop dry assume_yes n i (s ∷ ss) c =
      let c' = print (stage_lines i n s) c in
      let skip = stage_loop dry assume_yes n (i + 1) ss c' in
      let (e, c'') = run_stage assume_yes s.actions c' in
      let next = stage_loop dry assume_yes n (i + 1) ss c'' in
      if is_empty s.actions || dry then skip else elim e [ none ↦ next | some e' ↦ (some e', c'') ]

  unfoldable pub run_stages :
      Bool
      → List (Stage World E)
      → Bool
      → Bool
      → Console World
      → Option (StageError E) × Console World
  unfolding stage_loop stage_lines
  run_stages is_terminal stages dry assume_yes c =
      if not dry && not assume_yes && not is_terminal
      then (some needs_terminal, c)
      else stage_loop dry assume_yes (length stages) 0 stages c

  -- The actions of all the stages, in order.
  unfoldable pub all_actions : List (Stage World E) → List (Action World E)
  all_actions [] = []
  all_actions (s ∷ ss) = s.actions ++ all_actions ss
