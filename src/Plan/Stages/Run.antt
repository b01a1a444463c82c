-- ===== src/Plan/Stages/Run.antt =====
-- What a run of the stages does to the world.
use vkage.Base.{
  ℕ, ◌+◌, ◌≡◌, refl, ap, sym, ◌∙◌, Bool, true, false, List, [], ◌∷◌, ◌++◌, Option, none, some,
  arith, inl, inr, Bool-cases, length, map, Option-cases,
}
use mathlib.Core.List.{flatten}
use mathlib.Core.Path.{subst}
use vkage.Plan.Stages.{
  Action, Stage, StageError, failed, Console, run_actions, print, run_stage, is_empty, stage_loop,
  run_stages, all_actions, stage_lines,
}

abbrev pub outcome :
    {World E : Type 0} → Option (StageError E) × Console World → Option (StageError E) × World
outcome r = (r.0, r.1.world)

module _ {World E : Type 0} where
  -- The first error, after the actions before it.
  pub run_actions-append :
      (xs ys : List (Action World E)) (w : World)
      → run_actions (xs ++ ys) w ≡ elim (run_actions xs w).0 [
        | none ↦ run_actions ys (run_actions xs w).1
        | some e ↦ (some e, (run_actions xs w).1)
      ]
  unfolding run_actions
  run_actions-append [] ys w = refl
  run_actions-append (x ∷ xs) ys w = ground (arith, run_actions-append xs ys (x.run w).1)

  pub is_empty-eq : (xs : List (Action World E)) → is_empty xs ≡ true → xs ≡ []
  unfolding is_empty
  is_empty-eq [] h = refl
  is_empty-eq (x ∷ xs) h = cc

  stage_loop-yes :
      (n i : ℕ) (ss : List (Stage World E)) (c : Console World)
      → outcome (stage_loop false true n i ss c) ≡ run_actions (all_actions ss) c.world
  unfolding stage_loop run_stage all_actions print
  stage_loop-yes n i [] c = unfold run_actions in refl
  stage_loop-yes n i (s ∷ ss) c = elim (Bool-cases (is_empty s.actions)) [
    | inl empty ↦ rw empty (
        stage_loop-yes n (i + 1) ss (print (stage_lines i n s) c)
        ∙ ap (λ (xs : List (Action World E)). run_actions (xs ++ all_actions ss) c.world)
            (sym (is_empty-eq s.actions empty)))
    | inr full ↦
        let c' = print (stage_lines i n s) c in
        rw (full, run_actions-append s.actions (all_actions ss) c.world)
          (ground (arith, stage_loop-yes n (i + 1) ss (run_stage true s.actions c').1))
  ]

  -- A dry run changes nothing and fails at nothing, whatever the actions are.
  stage_loop-dry :
      (y : Bool) (n i : ℕ) (ss : List (Stage World E)) (c : Console World)
      → (outcome (stage_loop true y n i ss c) ≡ (none, c.world))
        × ((stage_loop true y n i ss c).1.enters ≡ c.enters)
  unfolding stage_loop print
  stage_loop-dry y n i [] c = (refl, refl)
  stage_loop-dry y n i (s ∷ ss) c = elim (Bool-cases (is_empty s.actions)) [
    | inl e ↦ rw e (stage_loop-dry y n (i + 1) ss (print (stage_lines i n s) c))
    | inr e ↦ rw e (stage_loop-dry y n (i + 1) ss (print (stage_lines i n s) c))
  ]

-- What a run of actions does: each in turn on the world that the one before it left, up to the first
-- that fails, whose error is the run's and after which no other is run.
pub data Runs {World E : Type 0}
    : List (Action World E) → World → Option (StageError E) → World → Type 0 where
  ended : {w : World} → Runs [] w none w
  ran :
      {a : Action World E} {rest : List (Action World E)} {w v : World} {o : Option (StageError E)}
      → (a.run w).0 ≡ none
      → Runs rest (a.run w).1 o v
      → Runs (a ∷ rest) w o v
  failing :
      {a : Action World E} {rest : List (Action World E)} {w : World} {e : E}
      → (a.run w).0 ≡ some e
      → Runs (a ∷ rest) w (some (failed e)) (a.run w).1

run_actions-Runs :
    {World E : Type 0} (actions : List (Action World E)) (w : World)
    → Runs actions w (run_actions actions w).0 (run_actions actions w).1
unfolding run_actions
run_actions-Runs [] w = ended
run_actions-Runs (a ∷ rest) w = elim (Option-cases (a.run w).0) [
  | inl fine ↦ rw (fine, run_actions) (ran fine (run_actions-Runs rest (a.run w).1))
  | inr (e, err) ↦ rw (err, run_actions) (failing err)
]

all_actions-flatten :
    {World E : Type 0} (stages : List (Stage World E))
    → all_actions stages ≡ flatten (map (λ (s : Stage World E). s.actions) stages)
unfolding all_actions flatten
all_actions-flatten [] = refl
all_actions-flatten (s ∷ ss) = ap (λ xs. s.actions ++ xs) (all_actions-flatten ss)

-- With -y the actions of all stages are run in order, each on the world that the one before it left,
-- up to the first that fails: its error is returned, and none is run behind it. The division into
-- stages, and stages with nothing to do, change nothing.
pub run_stages-yes :
    {World E : Type 0} (is_terminal : Bool) (stages : List (Stage World E)) (c : Console World)
    → Runs
        (flatten (map (λ (s : Stage World E). s.actions) stages))
        c.world
        (run_stages is_terminal stages false true c).0
        (run_stages is_terminal stages false true c).1.world
unfolding run_stages
run_stages-yes t ss c =
    subst
      (λ (r : Option (StageError _) × _). Runs (flatten (map (λ s. s.actions) ss)) c.world r.0 r.1)
      (sym (stage_loop-yes (length ss) 0 ss c))
      (subst
        (λ xs.
          Runs xs c.world (run_actions (all_actions ss) c.world).0
            (run_actions (all_actions ss) c.world).1)
        (all_actions-flatten ss) (run_actions-Runs (all_actions ss) c.world))

-- A dry run succeeds, leaves the world as it is and waits for no Enter, with or without -y and on
-- any standard input.
pub run_stages-dry :
    {World E : Type 0} (is_terminal yes' : Bool) (stages : List (Stage World E)) (c : Console World)
    → (outcome (run_stages is_terminal stages true yes' c) ≡ (none, c.world))
      × ((run_stages is_terminal stages true yes' c).1.enters ≡ c.enters)
unfolding run_stages
run_stages-dry t y ss c = stage_loop-dry y (length ss) 0 ss c
