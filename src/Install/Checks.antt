-- ===== src/Install/Checks.antt =====
-- What install has done when a check of the host fails.
use vkage.Base.{
  ◌≡◌, refl, sym, ◌⊎◌, inl, inr, Bool, false, List, [], ◌∷◌, Option, none, some, Bytes, codes, All,
  Result, ok, err, Bool-cases,
}
use mathlib.Core.Path.{subst}
use vkage.Host.{Host}
use vkage.Plan.Stages.{Stage, StageError, Console, run_actions, is_empty, run_stages}
use vkage.Plan.Stages.Order.{Keeps, run_actions-Keeps}
use vkage.Plan.Stages.Refused.{run_stages_refused}
use vkage.Install.{
  InstallError, Installer, required, Copies, module_checked, wlan_checked, groups_checked,
  cgroups_checked, command_checked, host_checks, copies_of,
}
use vkage.Install.Stages.{check_stage, later_stages, staged, installed_by, files_of, install_stages}

module _ (h : Host) (i : Installer h) (P : h.World → Type 0)
    (modprobe : (args : List Bytes) (w : h.World) → P w → P (h.command (codes "modprobe") args w).1)
    (warn : (msg : Bytes) (w : h.World) → P w → P (i.warn msg w)) where
  module_checked-Keeps : (r : Option h.Fault × h.World) → P r.1 → P (module_checked h i r).1
  unfolding module_checked
  module_checked-Keeps (none, w) p = p
  module_checked-Keeps (some e, w) p = p

  wlan_checked-Keeps : (r : Option h.Fault × h.World) → P r.1 → P (wlan_checked h i r).1
  unfolding wlan_checked
  wlan_checked-Keeps (none, w) p = p
  wlan_checked-Keeps (some e, w) p = warn _ w p

  groups_checked-Keeps :
      (groups : List Bytes) (w : h.World) → P w → P (groups_checked h i groups w).1
  unfolding groups_checked
  groups_checked-Keeps [] w p = p
  groups_checked-Keeps (g ∷ gs) w p = p

  cgroups_checked-Keeps : (o : Option h.Fault) (w : h.World) → P w → P (cgroups_checked h i o w).1
  unfolding cgroups_checked
  cgroups_checked-Keeps none w p = p
  cgroups_checked-Keeps (some e) w p = warn _ w p

  command_checked-Keeps : (w : h.World) → P w → P (command_checked h i w).1
  unfolding command_checked
  command_checked-Keeps w p = elim (Bool-cases (i.has_command (codes "vdpa") w)) [
    | inl yes' ↦ rw yes' p
    | inr no' ↦ rw no' p
  ]

  host_checks-Keeps : All (Keeps P) (host_checks h i)
  unfolding host_checks
  host_checks-Keeps = (
    (λ w p. groups_checked-Keeps (i.iommu_groups w) w p),
    (
      (λ w p.
          module_checked-Keeps (h.command (codes "modprobe") required w) (modprobe required w p)),
      (
        (λ w p.
            wlan_checked-Keeps
              (h.command (codes "modprobe") (codes "-n" ∷ codes "virtio_wlan" ∷ []) w)
              (modprobe (codes "-n" ∷ codes "virtio_wlan" ∷ []) w p)),
        (
          command_checked-Keeps,
          (
            (λ w p.
                cgroups_checked-Keeps (i.stat (codes "/sys/fs/cgroup/cgroup.controllers") w) w p),
            tt,
          ),
        ),
      ),
    ),
  )

  checks_kept :
      (c : Console h.World) (v w' : h.World) (e : StageError (InstallError h.Fault))
      → run_actions (host_checks h i) c.world ≡ (some e, v)
      → P c.world
      → (w' ≡ c.world) ⊎ (w' ≡ v)
      → P w'
  checks_kept c v w' e fails p (inl same) = subst P (sym same) p
  checks_kept c v w' e fails p (inr same) = subst P (sym same) (
      subst (λ (r : Option (StageError (InstallError h.Fault)) × h.World). P r.1) fails
        (run_actions-Keeps P (host_checks h i) c.world host_checks-Keeps p))

  staged-Keeps :
      (w : h.World) (r : Copies h i) (stages : List (Stage h.World (InstallError h.Fault)))
      (is_terminal yes' : Bool) (c : Console h.World) (v : h.World)
      (e : StageError (InstallError h.Fault))
      → staged h i w r ≡ ok stages
      → run_actions (host_checks h i) c.world ≡ (some e, v)
      → P c.world
      → P (run_stages is_terminal stages false yes' c).1.world
  unfolding staged check_stage is_empty
  staged-Keeps w (err x) stages is_terminal yes' c v e is fails p = absurd (cc is)
  staged-Keeps w (ok copies) stages is_terminal yes' c v e is fails p =
      let same : (check_stage h i ∷ later_stages h i copies w) ≡ stages = cc is in
      subst
        (λ (ss : List (Stage h.World (InstallError h.Fault))).
          P (run_stages is_terminal ss false yes' c).1.world)
        same
        (checks_kept c v _ e fails p (
          run_stages_refused is_terminal yes' (check_stage h i) (later_stages h i copies w) c e v
            (unfold host_checks in refl) fails))

  installed_by-Keeps :
      (guest initramfs launcher : Bytes) (w : h.World) (r : Result h.Fault Bytes)
      (stages : List (Stage h.World (InstallError h.Fault))) (is_terminal yes' : Bool)
      (c : Console h.World) (v : h.World) (e : StageError (InstallError h.Fault))
      → installed_by h i guest initramfs launcher w r ≡ ok stages
      → run_actions (host_checks h i) c.world ≡ (some e, v)
      → P c.world
      → P (run_stages is_terminal stages false yes' c).1.world
  unfolding installed_by
  installed_by-Keeps guest initramfs launcher w (err x) stages is_terminal yes' c v e is fails p =
      absurd (cc is)
  installed_by-Keeps guest initramfs launcher w (ok self) stages is_terminal yes' c v e is fails p =
      staged-Keeps w (copies_of h i (files_of h i guest initramfs launcher self) w) stages
        is_terminal yes' c v e is fails p

  -- If a check of the host fails, install changes nothing: whatever holds of the host before, and is not
  -- changed by modprobe and by a warning, holds when the run of the stages is over, with or without -y.
  pub install_checks-Keeps :
      (guest initramfs launcher : Bytes) (w v : h.World)
      (stages : List (Stage h.World (InstallError h.Fault))) (is_terminal yes' : Bool)
      (c : Console h.World) (e : StageError (InstallError h.Fault))
      → install_stages h i guest initramfs launcher w ≡ ok stages
      → run_actions (host_checks h i) c.world ≡ (some e, v)
      → P c.world
      → P (run_stages is_terminal stages false yes' c).1.world
  unfolding install_stages
  install_checks-Keeps guest initramfs launcher w v stages is_terminal yes' c e is fails p =
      installed_by-Keeps guest initramfs launcher w i.executable stages is_terminal yes' c v e is
        fails p
