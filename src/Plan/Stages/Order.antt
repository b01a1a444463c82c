-- ===== src/Plan/Stages/Order.antt =====
-- What a run of the stages keeps, and what it has done before it reaches a stage, also where it fails
-- or is stopped.
use vkage.Base.{
  ℕ, ◌+◌, ◌≡◌, refl, ap, sym, ◌∙◌, inl, inr, Bool, true, false, not, ◌&&◌, List, [], ◌∷◌, ◌++◌,
  Option, none, some, Bool-cases, Option-cases, All, length,
}
use mathlib.Core.Path.{subst}
use vkage.Plan.Stages.{
  Action, Stage, StageError, Console, run_actions, run_stage, is_empty, stage_loop, run_stages,
  all_actions, print, stage_lines,
}
use vkage.Plan.Stages.Run.{run_actions-append, is_empty-eq}
use vkage.Plan.Stages.Ended.{
  Ended, done, cancelled, broken, run_stage-Ended, after_stage, stage_loop-full, stage_loop-empty,
  run_actions_ok, run_actions_failed,
}

module _ {World E : Type 0} (P : World → Type 0) where
  -- An action that keeps what P says of the world, also where it fails.
  abbrev pub Keeps : Action World E → Type 0
  Keeps a = (w : World) → P w → P (a.run w).1

  pub run_actions-Keeps :
      (actions : List (Action World E)) (w : World)
      → All Keeps actions
      → P w
      → P (run_actions actions w).1
  run_actions-Keeps [] w k p = unfold run_actions in p
  run_actions-Keeps (a ∷ as') w (k, ks) p = elim (Option-cases (a.run w).0) [
    | inl ok ↦ rw (run_actions_ok a as' w ok) (run_actions-Keeps as' (a.run w).1 ks (k w p))
    | inr (e, err) ↦ rw (run_actions_failed a as' w e err) (k w p)
  ]

  Ended-Keeps :
      (w w' : World) (actions : List (Action World E)) (o : Option (StageError E))
      → All Keeps actions
      → P w
      → Ended w actions o w'
      → P w'
  Ended-Keeps w _ actions _ k p (done w' e) =
      subst P (ap (λ (r : Option (StageError E) × World). r.1) e) (run_actions-Keeps actions w k p)
  Ended-Keeps w _ actions _ k p (cancelled x) = p
  Ended-Keeps w _ actions _ k p (broken x w' e) =
      subst P (ap (λ (r : Option (StageError E) × World). r.1) e) (run_actions-Keeps actions w k p)

  abbrev pub KeepsStage : Stage World E → Type 0
  KeepsStage s = All Keeps s.actions

  after_stage-Keeps :
      (yes' : Bool) (n i : ℕ) (ss : List (Stage World E)) (o : Option (StageError E))
      (c : Console World)
      → P c.world
      → ((c' : Console World) → P c'.world → P (stage_loop false yes' n i ss c').1.world)
      → P (after_stage yes' n i ss o c).1.world
  after_stage-Keeps yes' n i ss none c p k = k c p
  after_stage-Keeps yes' n i ss (some e) c p k = p

  stage_loop-Keeps :
      (yes' : Bool) (n i : ℕ) (ss : List (Stage World E)) (c : Console World)
      → All KeepsStage ss
      → P c.world
      → P (stage_loop false yes' n i ss c).1.world
  unfolding print
  stage_loop-Keeps yes' n i [] c k p = unfold stage_loop in p
  stage_loop-Keeps yes' n i (s ∷ ss) c (k, ks) p = elim (Bool-cases (is_empty s.actions)) [
    | inl empty ↦
        rw (stage_loop-empty yes' n i s ss c empty)
          (stage_loop-Keeps yes' n (i + 1) ss (print (stage_lines i n s) c) ks p)
    | inr full ↦
        let c' = print (stage_lines i n s) c in
        let r = run_stage yes' s.actions c' in
        rw (stage_loop-full yes' n i s ss c full) (
          after_stage-Keeps yes' n (i + 1) ss r.0 r.1
            (Ended-Keeps c.world r.1.world s.actions r.0 k p (run_stage-Ended yes' s.actions c'))
            (λ d q. stage_loop-Keeps yes' n (i + 1) ss d ks q))
  ]

  -- Where the first stage establishes P and the others keep it, a run either ends in P, or has done
  -- nothing, or has failed in the first stage.
  pub data First (w : World) (actions : List (Action World E)) (w' : World) : Type 0 where
    established : P w' → First w actions w'
    nothing : w' ≡ w → First w actions w'
    failing : (e : StageError E) → run_actions actions w ≡ (some e, w') → First w actions w'

  after_stage-First :
      (yes' : Bool) (n i : ℕ) (w w' : World) (actions : List (Action World E))
      (ss : List (Stage World E)) (o : Option (StageError E)) (c : Console World)
      → All KeepsStage ss
      → ((v : World) → run_actions actions w ≡ (none, v) → P v)
      → c.world ≡ w'
      → Ended w actions o w'
      → First w actions (after_stage yes' n i ss o c).1.world
  after_stage-First yes' n i w _ actions ss _ c ks est same (done w' e) =
      established (stage_loop-Keeps yes' n i ss c ks (subst P (sym same) (est w' e)))
  after_stage-First yes' n i w _ actions ss _ c ks est same (cancelled x) = nothing same
  after_stage-First yes' n i w _ actions ss _ c ks est same (broken x w' e) =
      failing x (e ∙ ap (λ (v : World). (some x, v)) (sym same))

  -- Where the first stage has actions and establishes P, and the others keep it.
  pub run_stages-First :
      (is_terminal yes' : Bool) (s : Stage World E) (ss : List (Stage World E)) (c : Console World)
      → is_empty s.actions ≡ false
      → All KeepsStage ss
      → ((v : World) → run_actions s.actions c.world ≡ (none, v) → P v)
      → First c.world s.actions (run_stages is_terminal (s ∷ ss) false yes' c).1.world
  unfolding run_stages print
  run_stages-First is_terminal yes' s ss c full ks est =
      elim (Bool-cases (not yes' && not is_terminal)) [
        | inl refused ↦ rw refused (nothing refl)
        | inr going ↦
            let c' = print (stage_lines 0 (length (s ∷ ss)) s) c in
            let r = run_stage yes' s.actions c' in
            rw (going, stage_loop-full yes' (length (s ∷ ss)) 0 s ss c full)
              (after_stage-First yes' (length (s ∷ ss)) 1 c.world r.1.world s.actions ss r.0 r.1 ks
                est refl (run_stage-Ended yes' s.actions c'))
      ]

-- What is known of where a run ends is passed on.
pub First-map :
    {World E : Type 0} (P Q : World → Type 0) {w w' : World} {actions : List (Action World E)}
    → ((v : World) → P v → Q v)
    → First P w actions w'
    → First Q w actions w'
First-map P Q {w'} k (established p) = established (k w' p)
First-map P Q k (nothing e) = nothing e
First-map P Q k (failing e r) = failing e r

module _ {World E : Type 0} (P Q : World → Type 0) where
  -- Where the actions before the last stage keep P: a run ends in P, or has done all of them and then
  -- at most actions of the last stage, so that what those keep still holds.
  pub data Before (w : World) (ss : List (Stage World E)) (w' : World) : Type 0 where
    kept : P w' → Before w ss w'
    reached :
        (v : World) → run_actions (all_actions ss) w ≡ (none, v) → (Q v → Q w') → Before w ss w'

  all_done :
      (s : Stage World E) (ss : List (Stage World E)) (w w' v : World)
      → run_actions s.actions w ≡ (none, w')
      → run_actions (all_actions ss) w' ≡ (none, v)
      → run_actions (all_actions (s ∷ ss)) w ≡ (none, v)
  unfolding all_actions
  all_done s ss w w' v first rest =
      run_actions-append s.actions (all_actions ss) w
      ∙ ap
          (λ (r : Option (StageError E) × World). elim r.0 [
            | none ↦ run_actions (all_actions ss) r.1
            | some e ↦ (some e, r.1)
          ])
          first
      ∙ rest

  skip_empty :
      (s : Stage World E) (ss : List (Stage World E)) (w w' : World)
      → is_empty s.actions ≡ true
      → Before w ss w'
      → Before w (s ∷ ss) w'
  skip_empty s ss w w' empty (kept p) = kept p
  skip_empty s ss w w' empty (reached v r q) =
      reached v
        (all_done s ss w w v (rw (is_empty-eq s.actions empty) (unfold run_actions in refl)) r) q

  after_stage-Before :
      (yes' : Bool) (n i : ℕ) (w w' : World) (s : Stage World E) (ss : List (Stage World E))
      (last : List (Stage World E)) (o : Option (StageError E)) (c : Console World)
      → All (Keeps P) s.actions
      → P w
      → ((d : Console World)
          → P d.world
          → Before d.world ss (stage_loop false yes' n i last d).1.world)
      → c.world ≡ w'
      → Ended w s.actions o w'
      → Before w (s ∷ ss) (after_stage yes' n i last o c).1.world
  after_stage-Before yes' n i w _ s ss last _ c k p ih same (done w' e) =
      let at_end : P w' = Ended-Keeps P w w' s.actions none k p (done w' e) in
      elim (ih c (subst P (sym same) at_end)) [
        | kept q ↦ kept q
        | reached v r stays ↦
            reached v (all_done s ss w c.world v (e ∙ ap (λ (x : World). (none, x)) (sym same)) r)
              stays
      ]
  after_stage-Before yes' n i w _ s ss last _ c k p ih same (cancelled x) =
      kept (subst P (sym same) p)
  after_stage-Before yes' n i w _ s ss last _ c k p ih same (broken x w' e) =
      kept (subst P (sym same) (Ended-Keeps P w w' s.actions (some x) k p (broken x w' e)))

  stage_loop-Before :
      (yes' : Bool) (n i : ℕ) (ss : List (Stage World E)) (last : Stage World E) (c : Console World)
      → All (KeepsStage P) ss
      → All (Keeps Q) last.actions
      → P c.world
      → Before c.world ss (stage_loop false yes' n i (ss ++ last ∷ []) c).1.world
  unfolding print
  stage_loop-Before yes' n i [] last c ks qs p =
      reached c.world (unfold all_actions in unfold run_actions in refl)
        (stage_loop-Keeps Q yes' n i (last ∷ []) c (qs, tt))
  stage_loop-Before yes' n i (s ∷ ss) last c (k, ks) qs p =
      let c' = print (stage_lines i n s) c in
      elim (Bool-cases (is_empty s.actions)) [
        | inl empty ↦
            rw (stage_loop-empty yes' n i s (ss ++ last ∷ []) c empty) (
              skip_empty s ss c.world _ empty (stage_loop-Before yes' n (i + 1) ss last c' ks qs p))
        | inr full ↦
            let r = run_stage yes' s.actions c' in
            rw (stage_loop-full yes' n i s (ss ++ last ∷ []) c full) (
              after_stage-Before yes' n (i + 1) c.world r.1.world s ss (ss ++ last ∷ []) r.0 r.1 k p
                (λ d q. stage_loop-Before yes' n (i + 1) ss last d ks qs q) refl
                (run_stage-Ended yes' s.actions c'))
      ]

  pub run_stages-Before :
      (is_terminal yes' : Bool) (ss : List (Stage World E)) (last : Stage World E)
      (c : Console World)
      → All (KeepsStage P) ss
      → All (Keeps Q) last.actions
      → P c.world
      → Before c.world ss (run_stages is_terminal (ss ++ last ∷ []) false yes' c).1.world
  unfolding run_stages
  run_stages-Before is_terminal yes' ss last c ks qs p =
      elim (Bool-cases (not yes' && not is_terminal)) [
        | inl refused ↦ rw refused (kept p)
        | inr going ↦
            rw going (stage_loop-Before yes' (length (ss ++ last ∷ [])) 0 ss last c ks qs p)
      ]
