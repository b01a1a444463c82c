-- ===== src/Plan/Stages/Refused.antt =====
-- A run of the stages whose first stage fails.
use vkage.Base.{
  ℕ, ◌≡◌, refl, ap, sym, ◌∙◌, ◌⊎◌, inl, inr, Bool, false, not, ◌&&◌, List, ◌∷◌, Option, some,
  Bool-cases, length,
}
use vkage.Plan.Stages.{
  Action, Stage, StageError, Console, run_actions, run_stage, is_empty, run_stages, print,
  stage_lines,
}
use vkage.Plan.Stages.Ended.{
  Ended, done, cancelled, broken, run_stage-Ended, after_stage, stage_loop-full,
}

module _ {World E : Type 0} where
  after_stage_refused :
      (yes' : Bool) (n k : ℕ) (w v w' : World) (e : StageError E) (actions : List (Action World E))
      (ss : List (Stage World E)) (o : Option (StageError E)) (c : Console World)
      → run_actions actions w ≡ (some e, v)
      → c.world ≡ w'
      → Ended w actions o w'
      → ((after_stage yes' n k ss o c).1.world ≡ w) ⊎ ((after_stage yes' n k ss o c).1.world ≡ v)
  after_stage_refused yes' n k w v _ e actions ss _ c fails same (done w' r) =
      absurd (cc (fails, r))
  after_stage_refused yes' n k w v _ e actions ss _ c fails same (cancelled x) = inl same
  after_stage_refused yes' n k w v _ e actions ss _ c fails same (broken x w' r) =
      inr (same ∙ ap (λ (q : Option (StageError E) × World). q.1) (sym r ∙ fails))

  -- If the actions of the first stage fail, no later stage is run: the world is the one of the start, or
  -- the one in which the action failed.
  pub run_stages_refused :
      (is_terminal yes' : Bool) (s : Stage World E) (ss : List (Stage World E)) (c : Console World)
      (e : StageError E) (v : World)
      → is_empty s.actions ≡ false
      → run_actions s.actions c.world ≡ (some e, v)
      → let w = (run_stages is_terminal (s ∷ ss) false yes' c).1.world in (w ≡ c.world) ⊎ (w ≡ v)
  unfolding run_stages print
  run_stages_refused is_terminal yes' s ss c e v full fails =
      elim (Bool-cases (not yes' && not is_terminal)) [
        | inl refused ↦ rw refused (inl refl)
        | inr going ↦
            let c' = print (stage_lines 0 (length (s ∷ ss)) s) c in
            let r = run_stage yes' s.actions c' in
            rw (going, stage_loop-full yes' (length (s ∷ ss)) 0 s ss c full)
              (after_stage_refused yes' (length (s ∷ ss)) 1 c.world v r.1.world e s.actions ss r.0
                r.1 fails refl (run_stage-Ended yes' s.actions c'))
      ]
