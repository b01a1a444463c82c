-- ===== src/Plan/Stages/Ended.antt =====
-- How a stage ends, and the loop over the stages as a switch on that.
use vkage.Base.{ℕ, ◌+◌, ◌≡◌, refl, Bool, true, false, List, [], ◌∷◌, Option, none, some, arith}
use vkage.Plan.Stages.{
  Action, Stage, StageError, failed, stopped, Console, run_actions, run_now, confirm, run_stage,
  is_empty, stage_loop, print, stage_lines, prompt,
}

module _ {World E : Type 0} where
  -- How a stage with actions ends: with all of them done, or with an error, before any of them or at
  -- the one that failed.
  pub data Ended (w : World) (actions : List (Action World E))
      : Option (StageError E) → World → Type 0 where
    done : (w' : World) → run_actions actions w ≡ (none, w') → Ended w actions none w'
    cancelled : (e : StageError E) → Ended w actions (some e) w
    broken :
        (e : StageError E) (w' : World)
        → run_actions actions w ≡ (some e, w')
        → Ended w actions (some e) w'

  of_run :
      (actions : List (Action World E)) (w w' : World) (o : Option (StageError E))
      → run_actions actions w ≡ (o, w')
      → Ended w actions o w'
  of_run actions w w' none e = done w' e
  of_run actions w w' (some x) e = broken x w' e

  run_now-Ended :
      (actions : List (Action World E)) (c : Console World)
      → Ended c.world actions (run_now actions c).0 (run_now actions c).1.world
  run_now-Ended actions c =
      of_run actions c.world (run_actions actions c.world).1 (run_actions actions c.world).0 refl

  confirm-Ended :
      (actions : List (Action World E)) (enters : List Bool) (c : Console World)
      → Ended c.world actions (confirm actions enters c).0 (confirm actions enters c).1.world
  unfolding confirm
  confirm-Ended actions [] c = cancelled stopped
  confirm-Ended actions (true ∷ enters) c = run_now-Ended actions (record c { enters = enters })
  confirm-Ended actions (false ∷ enters) c = cancelled stopped

  pub run_stage-Ended :
      (yes' : Bool) (actions : List (Action World E)) (c : Console World)
      → Ended c.world actions (run_stage yes' actions c).0 (run_stage yes' actions c).1.world
  unfolding run_stage print
  run_stage-Ended true actions c = run_now-Ended actions c
  run_stage-Ended false actions c = confirm-Ended actions c.enters (print (prompt ∷ []) c)

  -- The loop behind a stage that was shown; `o` and `c` are what its run gave.
  abbrev pub after_stage :
      Bool
      → ℕ
      → ℕ
      → List (Stage World E)
      → Option (StageError E)
      → Console World
      → Option (StageError E) × Console World
  after_stage yes' n i ss none c = stage_loop false yes' n i ss c
  after_stage yes' n i ss (some e) c = (some e, c)

  pub stage_loop-full :
      (yes' : Bool) (n i : ℕ) (s : Stage World E) (ss : List (Stage World E)) (c : Console World)
      → is_empty s.actions ≡ false
      → let r = run_stage yes' s.actions (print (stage_lines i n s) c) in
        stage_loop false yes' n i (s ∷ ss) c ≡ after_stage yes' n (i + 1) ss r.0 r.1
  unfolding stage_loop
  stage_loop-full yes' n i s ss c full = rw full (ground arith)

  pub stage_loop-empty :
      (yes' : Bool) (n i : ℕ) (s : Stage World E) (ss : List (Stage World E)) (c : Console World)
      → is_empty s.actions ≡ true
      → stage_loop false yes' n i (s ∷ ss) c
        ≡ stage_loop false yes' n (i + 1) ss (print (stage_lines i n s) c)
  unfolding stage_loop
  stage_loop-empty yes' n i s ss c empty = rw empty refl

pub run_actions_ok :
    {World E : Type 0} (a : Action World E) (as' : List (Action World E)) (w : World)
    → (a.run w).0 ≡ none
    → run_actions (a ∷ as') w ≡ run_actions as' (a.run w).1
unfolding run_actions
run_actions_ok a as' w ok = ground arith

pub run_actions_failed :
    {World E : Type 0} (a : Action World E) (as' : List (Action World E)) (w : World) (e : E)
    → (a.run w).0 ≡ some e
    → run_actions (a ∷ as') w ≡ (some (failed e), (a.run w).1)
unfolding run_actions
run_actions_failed a as' w e err = ground arith
