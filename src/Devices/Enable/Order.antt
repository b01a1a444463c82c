-- ===== src/Devices/Enable/Order.antt =====
-- The order of what `enable` does: the udev rule goes last, so that no device is taken from its host
-- driver at boot whose guest has not started.
use vkage.Base.{
  ◌≡◌, refl, Bool, true, false, Bytes, All, Bool-cases, inl, inr, ℕ, List, [], ◌∷◌, ◌++◌, codes,
  ◌⊎◌, Option, none, some, sym, ◌∙◌, ap, Option-cases, arith,
}
use mathlib.Core.Path.{subst}
use vkage.Config.Devices.{Config}
use vkage.Plan.Quote.{show_cmd}
use vkage.Devices.Udev.Keeps.{remove_action-Keeps}
use vkage.Plan.Actions.Keeps.{write_action-Keeps}
use vkage.Plan.Stages.Ended.{run_actions_ok, run_actions_failed}
use vkage.Devices.Disable.{unit_of}
use vkage.Host.{Host}
use vkage.Plan.Stages.{Action, StageError, Console, run_actions, all_actions, run_stages}
use vkage.Plan.Stages.Order.{Keeps, KeepsStage, kept, reached, run_stages-Before}
use vkage.Plan.Actions.{cmd_action, tmp_of}
use vkage.Devices.Udev.{DeviceError, fault, rule_path, rule_text, write_rules, udev_actions}
use vkage.Devices.Disable.Order.{Inert, config-Keeps}
use vkage.Devices.Enable.{Enabling, record_actions, start_stages, enable_stages}

module _ (h : Host) (P : h.World → Type 0) (inert : Inert h P) where
  record_actions-Keeps : (en : Enabling) (text : Bytes) → All (Keeps P) (record_actions h en text)
  unfolding record_actions
  record_actions-Keeps en text = elim (Bool-cases en.is_new) [
    | inl new ↦ rw new (config-Keeps h P inert text, tt)
    | inr old ↦ rw old tt
  ]

  start_stages-Keeps : (en : Enabling) (text : Bytes) → All (KeepsStage P) (start_stages h en text)
  unfolding start_stages cmd_action
  start_stages-Keeps en text =
      (record_actions-Keeps en text, (((λ w p. inert.systemctl _ w p), tt), tt))

-- What a started guest is, `started`, and what is documented of it: `systemctl enable --now` of the
-- guest's unit starts it, if it reports no error, and neither udevadm nor changes of files stop it.
pub record GuestLaws (h : Host) (name : Bytes) : Type 0 where
  pub started : h.World → Bool
  pub starts :
      (w : h.World)
      → (h.command
          (codes "systemctl")
          (codes "enable" ∷ codes "--now" ∷ (codes "invirtio@" ++ (name ++ codes ".service")) ∷ [])
          w).0
        ≡ none
      → started
          (h.command
            (codes "systemctl")
            (codes "enable"
              ∷ codes "--now"
              ∷ (codes "invirtio@" ++ (name ++ codes ".service"))
              ∷ [])
            w).1
        ≡ true
  pub udevadm :
      (args : List Bytes) (w : h.World)
      → started w ≡ true
      → started (h.command (codes "udevadm") args w).1 ≡ true
  pub write :
      (path text : Bytes) (m : ℕ) (w : h.World)
      → started w ≡ true
      → started (h.write_file path text m w).1 ≡ true
  pub chmod :
      (path : Bytes) (m : ℕ) (w : h.World) → started w ≡ true → started (h.chmod path m w).1 ≡ true
  pub rename : (p q : Bytes) (w : h.World) → started w ≡ true → started (h.rename p q w).1 ≡ true
  pub remove : (path : Bytes) (w : h.World) → started w ≡ true → started (h.remove path w).1 ≡ true

-- Where actions succeed, the last of them has succeeded, and left the world as it then is.
last_ran :
    {World E : Type 0} (xs : List (Action World E)) (a : Action World E) (w v : World)
    → run_actions (xs ++ a ∷ []) w ≡ (none, v)
    → (u : World) × ((a.run u).0 ≡ none) × ((a.run u).1 ≡ v)
unfolding run_actions
last_ran [] a w v e = (w, ground arith, ground arith)
last_ran (x ∷ xs) a w v e = elim (Option-cases (x.run w).0) [
  | inl fine ↦ last_ran xs a (x.run w).1 v (sym (run_actions_ok x (xs ++ a ∷ []) w fine) ∙ e)
  | inr (x', err) ↦ absurd (
      cc (
        ap (λ (r : Option (StageError _) × _). r.0)
          (sym (run_actions_failed x (xs ++ a ∷ []) w x' err) ∙ e)))
]

module _ (h : Host) (en : Enabling) (laws : GuestLaws h en.name) where
  lifted_started :
      (r : Option h.Fault × h.World)
      → (r.0 ≡ none → laws.started r.1 ≡ true)
      → elim r.0 as (λ o. Option (DeviceError h.Fault)) [ none ↦ none | some x ↦ some (fault x) ]
        ≡ none
      → laws.started r.1 ≡ true
  lifted_started (none, w) k done = k refl
  lifted_started (some e, w) k done = absurd (cc done)

  start_stages_started :
      (text : Bytes) (w v : h.World)
      → run_actions (all_actions (start_stages h en text)) w ≡ (none, v)
      → laws.started v ≡ true
  unfolding start_stages cmd_action all_actions
  start_stages_started text w v e =
      let (u, done, same) = last_ran (record_actions h en text) _ w v e in
      subst (λ x. laws.started x ≡ true) same
        (lifted_started
          (h.command (codes "systemctl") (codes "enable" ∷ codes "--now" ∷ unit_of en.name ∷ []) u)
          (laws.starts u) done)

  abbrev Started : h.World → Type 0
  Started w = laws.started w ≡ true

  write_rules-Keeps : (c : Config) → Keeps Started (write_rules h c)
  unfolding write_rules
  write_rules-Keeps [] w s =
      remove_action-Keeps h Started (show_cmd (codes "rm") (codes "-f" ∷ rule_path ∷ [])) rule_path
        (laws.remove rule_path) w s
  write_rules-Keeps (e ∷ es) w s =
      write_action-Keeps h Started rule_path (rule_text (e ∷ es)) 420
        (laws.write (tmp_of rule_path) (rule_text (e ∷ es)) 420) (laws.chmod (tmp_of rule_path) 420)
        (laws.rename (tmp_of rule_path) rule_path) (laws.remove (tmp_of rule_path)) w s

  udev_actions-Keeps : (c : Config) → All (Keeps Started) (udev_actions h c)
  unfolding udev_actions cmd_action
  udev_actions-Keeps c = (write_rules-Keeps c, ((λ w s. laws.udevadm _ w s), tt))

  -- The udev rules are written last: wherever a run of `enable` ends, also where it fails or is stopped,
  -- the file of the rules is the one that was there before, or the guest is started. The condition is
  -- that the other actions do not change the file, and that systemctl starts what it says it has started and
  -- neither udevadm nor a change of files stops it.
  pub enable_rules-Before :
      (text : Bytes) (is_terminal yes' : Bool) (c : Console h.World)
      → Inert h (λ w. h.content rule_path w ≡ h.content rule_path c.world)
      → (h.content rule_path (run_stages is_terminal (enable_stages h en text) false yes' c).1.world
          ≡ h.content rule_path c.world)
        ⊎ (laws.started (run_stages is_terminal (enable_stages h en text) false yes' c).1.world
            ≡ true)
  unfolding enable_stages
  enable_rules-Before text is_terminal yes' c inert =
      let P = λ (w : h.World). h.content rule_path w ≡ h.content rule_path c.world in
      elim (run_stages-Before P Started is_terminal yes' (start_stages h en text) _ c
        (start_stages-Keeps h P inert en text) (udev_actions-Keeps en.config) refl) [
          | kept same ↦ inl same
          | reached v all stays ↦ inr (stays (start_stages_started text c.world v all))
        ]
