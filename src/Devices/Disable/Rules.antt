-- ===== src/Devices/Disable/Rules.antt =====
-- The udev rules that a run of `disable` leaves, wherever it ends.
use vkage.Base.{
  ◌≡◌, refl, Bool, false, List, [], ◌∷◌, none, Bytes, All-append, arith, Result, ok, err, Option,
  str_eq, str_eq_iff, Bool-cases, inl, inr, ◌≢◌,
}
use mathlib.Core.Path.{subst}
use vkage.Host.{Host}
use vkage.Host.Files.{FileLaws}
use vkage.Plan.Stages.{Action, Stage, Console, run_actions, is_empty, run_stages}
use vkage.Plan.Stages.Order.{KeepsStage, First, First-map, run_stages-First}
use vkage.Plan.Actions.{cmd_action}
use vkage.Config.Devices.{Config, Entry, Device}
use vkage.Devices.Udev.Rules.{
  rules_file, HasRules, IsRulesOf, HasRules-IsRulesOf, write_rules-HasRules,
}
use vkage.Devices.Udev.{DeviceError, rule_path, udev_actions}
use vkage.Devices.Disable.{forget_stage, disable_stages, without, plan_of, disable_plan}
use vkage.Devices.Disable.Order.{Inert, forget_stage-Keeps, disable_stages-Keeps}

two_done :
    {World E : Type 0} (a b : Action World E) (w v : World)
    → run_actions (a ∷ b ∷ []) w ≡ (none, v)
    → ((a.run w).0 ≡ none) × ((b.run (a.run w).1).1 ≡ v)
unfolding run_actions
two_done a b w v e = ground arith

of_ok : {A B : Type 0} {a b : B} → Path (Result A B) (ok a) (ok b) → a ≡ b
of_ok e = cc e

-- What is left of a configuration without the devices of a name: all others, as they were and in order.
pub data Removes (name : Bytes) : Config → Config → Type 0 where
  nil : Removes name [] []
  drops :
      {e : Entry} {es left : Config}
      → e.name ≡ name
      → Removes name es left
      → Removes name (e ∷ es) left
  keeps :
      {e : Entry} {es left : Config}
      → e.name ≢ name
      → Removes name es left
      → Removes name (e ∷ es) (e ∷ left)

without-Removes : (name : Bytes) (c : Config) → Removes name c (without name c)
unfolding without
without-Removes name [] = nil
without-Removes name (e ∷ es) = elim (Bool-cases (str_eq e.name name)) [
  | inl same ↦ rw same (drops ((str_eq_iff e.name name).0 same) (without-Removes name es))
  | inr other ↦
      rw other
        (keeps (λ p. absurd (cc ((str_eq_iff e.name name).1 p, other))) (without-Removes name es))
]

module _ (h : Host) (laws : FileLaws h) where
  udev_actions-HasRules :
      (c : Config) (w v : h.World)
      → Inert h (HasRules h c)
      → run_actions (udev_actions h c) w ≡ (none, v)
      → HasRules h c v
  unfolding udev_actions cmd_action
  udev_actions-HasRules c w v inert e =
      let (wrote, then') = two_done _ _ w v e in
      subst (HasRules h c) then' (inert.udevadm _ _ (write_rules-HasRules h laws c w wrote))

  udev_actions_full : (c : Config) → is_empty (udev_actions h c) ≡ false
  unfolding udev_actions is_empty
  udev_actions_full c = refl

  plan_of-First :
      (left : Config) (name : Bytes) (dev : Device) (r : Result h.Fault Bytes)
      (stages : List (Stage h.World (DeviceError h.Fault))) (is_terminal yes' : Bool)
      (c : Console h.World)
      → Inert h (HasRules h left)
      → plan_of h left name dev r ≡ ok stages
      → First
          (HasRules h left)
          c.world
          (udev_actions h left)
          (run_stages is_terminal stages false yes' c).1.world
  unfolding plan_of
  plan_of-First left name dev (err e) stages is_terminal yes' c inert e' = absurd (cc e')
  plan_of-First left name dev (ok text) stages is_terminal yes' c inert e =
      subst
        (λ (ss : List (Stage h.World (DeviceError h.Fault))).
          First (HasRules h left) c.world (udev_actions h left)
            (run_stages is_terminal ss false yes' c).1.world)
        (of_ok e)
        (run_stages-First (HasRules h left) is_terminal yes' _ _ c (udev_actions_full left)
          (All-append (KeepsStage (HasRules h left)) (disable_stages h name dev)
            (forget_stage h text ∷ []) (disable_stages-Keeps h (HasRules h left) inert name dev)
            (forget_stage-Keeps h (HasRules h left) inert text))
          (λ v. udev_actions-HasRules left c.world v inert))

  -- Wherever a run of `disable` ends, also where it fails or is stopped: the file of the udev rules has
  -- a line for each device of the configuration but the named one, and for no other, or nothing was
  -- done, or writing the rules or having udev read them failed. The condition is that the other actions do not
  -- change what the file holds.
  pub disable_rules-First :
      (marshal : Config → Result h.Fault Bytes) (cfg : Config) (name : Bytes) (dev : Device)
      (stages : List (Stage h.World (DeviceError h.Fault))) (is_terminal yes' : Bool)
      (c : Console h.World)
      → ((file : Option Bytes) → Inert h (λ w. h.content rule_path w ≡ file))
      → disable_plan h marshal cfg name dev ≡ ok stages
      → (left : Config) × Removes name cfg left
        × First
            (λ w. IsRulesOf left (h.content rule_path w))
            c.world
            (udev_actions h left)
            (run_stages is_terminal stages false yes' c).1.world
  unfolding disable_plan
  disable_rules-First marshal cfg name dev stages is_terminal yes' c inert e =
      let left = without name cfg in
      (
        left,
        without-Removes name cfg,
        First-map (HasRules h left) (λ w. IsRulesOf left (h.content rule_path w))
            (HasRules-IsRulesOf h left)
            (plan_of-First left name dev (marshal left) stages is_terminal yes' c
              (inert (rules_file left)) e),
      )
