-- ===== src/Devices/Disable/Order.antt =====
-- The order of what `disable` does: the udev rule goes first, so that a device that is not disabled to
-- the end is not taken from its host driver at the next boot.
use vkage.Base.{
  ℕ, zero, suc, ◌≢◌, ap, inl, inr, Bool, true, false, List, [], ◌∷◌, Option, none, some, Bytes,
  codes, All, arith, Bool-cases, Option-cases,
}
use vkage.Host.{Host, vdpa_host}
use vkage.Vdpa.{VdpaError, Errno, busy, other, remove, destroy}
use vkage.Plan.Stages.Order.{Keeps, KeepsStage}
use vkage.Plan.Actions.{sysfs_action, tmp_of}
use vkage.Plan.Actions.Keeps.{sysfs_action-Keeps}
use vkage.Devices.Udev.Keeps.{remove_action-Keeps, config_action-Keeps}
use vkage.Vdpa.Keeps.{remove-Keeps, destroy-Keeps}
use vkage.Config.Devices.{Device}
use vkage.Run.Launch.{log_dir, log_path}
use vkage.Devices.Udev.{config_dir, config_path, rule_path, lifted, remove_action, config_action}
use vkage.Devices.Disable.{
  Outcome, unit_path, disable_failed, stop_unit_next, stop_unit, of_vdpa, unmount_round,
  unmount_loop, stop_actions, removal_actions, unit_of, forget_stage, return_actions,
  disable_stages,
}

-- What of the world the commands, the writes to sysfs, the ioctl and the unmounting leave as it is, and
-- so do writes to other files than the rules.
pub record Inert (h : Host) (P : h.World → Type 0) : Type 0 where
  pub systemctl :
      (args : List Bytes) (w : h.World) → P w → P (h.command (codes "systemctl") args w).1
  pub udevadm : (args : List Bytes) (w : h.World) → P w → P (h.command (codes "udevadm") args w).1
  pub vdpa_tool : (args : List Bytes) (w : h.World) → P w → P (h.command (codes "vdpa") args w).1
  pub sysfs : (path value : Bytes) (w : h.World) → P w → P (h.sysfs_write path value w).1
  pub ioctl : (name : Bytes) (w : h.World) → P w → P (h.destroy_ioctl name w).1
  pub pause : (w : h.World) → P w → P (h.pause w)
  pub unmount : (dir : Bytes) (w : h.World) → P w → P (h.unmount dir w).1
  pub remove : (path : Bytes) (w : h.World) → path ≢ rule_path → P w → P (h.remove path w).1
  pub mkdir : (dir : Bytes) (m : ℕ) (w : h.World) → P w → P (h.mkdir_all dir m w).1
  pub write :
      (path text : Bytes) (m : ℕ) (w : h.World)
      → path ≢ rule_path
      → P w
      → P (h.write_file path text m w).1
  pub rename :
      (p q : Bytes) (w : h.World) → p ≢ rule_path → q ≢ rule_path → P w → P (h.rename p q w).1

-- The byte at a place, zero behind the end.
abbrev byte_at : ℕ → Bytes → ℕ
byte_at n [] = 0
byte_at zero (b ∷ s) = b
byte_at (suc n) (b ∷ s) = byte_at n s

differ : (n : ℕ) (s t : Bytes) → byte_at n s ≢ byte_at n t → s ≢ t
differ n s t d e = d (ap (byte_at n) e)

log_path-ne : (name : Bytes) → log_path name ≢ rule_path
unfolding log_path log_dir
log_path-ne name = differ 1 _ rule_path (λ e. absurd (omega (arith, e)))

log_dir-ne : (name : Bytes) → log_dir name ≢ rule_path
unfolding log_dir
log_dir-ne name = differ 1 _ rule_path (λ e. absurd (omega (arith, e)))

config_path-ne : (config_path ≢ rule_path) × (tmp_of config_path ≢ rule_path)
config_path-ne = (
  differ 5 config_path rule_path (λ e. absurd (omega (arith, e))),
  differ 5 (tmp_of config_path) rule_path (λ e. absurd (omega (arith, e))),
)

module _ (h : Host) (P : h.World → Type 0) (inert : Inert h P) where
  disable_failed-Keeps :
      (unit : Bytes) (e : h.Fault) (w : h.World) → P w → P (disable_failed h unit e w).1
  unfolding disable_failed
  disable_failed-Keeps unit e w p = elim (Option-cases (h.content unit_path w)) [
    | inl gone ↦ rw (gone, disable_failed) (inert.systemctl _ w p)
    | inr (text, there) ↦ rw (there, disable_failed) p
  ]

  stop_unit_next-Keeps :
      (unit : Bytes) (r : Option h.Fault × h.World) → P r.1 → P (stop_unit_next h unit r).1
  unfolding stop_unit_next
  stop_unit_next-Keeps unit (none, w) p = p
  stop_unit_next-Keeps unit (some e, w) p = disable_failed-Keeps unit e w p

  stop_unit-Keeps : (unit : Bytes) (w : h.World) → P w → P (stop_unit h unit w).1
  unfolding stop_unit
  stop_unit-Keeps unit w p =
      stop_unit_next-Keeps unit
        (h.command (codes "systemctl") (codes "disable" ∷ codes "--now" ∷ unit ∷ []) w)
        (inert.systemctl _ w p)

  unmount_round-Keeps :
      (last : Bool) (again : h.World → Outcome h) (r : Option (Errno h.Fault) × h.World)
      → ((w : h.World) → P w → P (again w).1)
      → P r.1
      → P (unmount_round h last again r).1
  unfolding unmount_round
  unmount_round-Keeps last again (none, w) k p = p
  unmount_round-Keeps last again (some (other e), w) k p = p
  unmount_round-Keeps true again (some busy, w) k p = p
  unmount_round-Keeps false again (some busy, w) k p = k (h.pause w) (inert.pause w p)

  unmount_loop-Keeps : (dir : Bytes) (n : ℕ) (w : h.World) → P w → P (unmount_loop h dir n w).1
  unfolding unmount_loop
  unmount_loop-Keeps dir zero w p = elim (Bool-cases (h.is_mount_point dir w)) [
    | inl on ↦ rw on (
        unmount_round-Keeps true (λ v. (none, v)) (h.unmount dir w) (λ v q. q)
          (inert.unmount dir w p))
    | inr off ↦ rw off p
  ]
  unmount_loop-Keeps dir (suc n) w p = elim (Bool-cases (h.is_mount_point dir w)) [
    | inl on ↦ rw on (
        unmount_round-Keeps false (unmount_loop h dir n) (h.unmount dir w)
          (unmount_loop-Keeps dir n) (inert.unmount dir w p))
    | inr off ↦ rw off p
  ]

  of_vdpa-Keeps : (r : Option (VdpaError h.Fault) × h.World) → P r.1 → P (of_vdpa h r).1
  unfolding of_vdpa
  of_vdpa-Keeps (none, w) p = p
  of_vdpa-Keeps (some e, w) p = p

  sysfs-Keeps :
      (path value : Bytes) (needed : Option (h.World → Bool))
      → Keeps P (lifted h (sysfs_action h path value needed))
  sysfs-Keeps path value needed w p =
      sysfs_action-Keeps h P path value needed (inert.sysfs path) w p

  rm-Keeps : (show path : Bytes) → path ≢ rule_path → Keeps P (remove_action h show path)
  rm-Keeps show path ne w p =
      remove_action-Keeps h P show path (λ v q. inert.remove path v ne q) w p

  removal_actions-Keeps : (name : Bytes) → All (Keeps P) (removal_actions h name)
  unfolding removal_actions
  removal_actions-Keeps name = (
    sysfs-Keeps _ _ _,
    (
      λ w p.
          of_vdpa-Keeps (remove (vdpa_host h name) true w)
            (remove-Keeps (vdpa_host h name) P (inert.vdpa_tool _) (inert.sysfs _ _) w p),
      (
        λ w p.
            of_vdpa-Keeps (destroy (vdpa_host h name) w)
              (destroy-Keeps (vdpa_host h name) P (inert.ioctl name) inert.pause w p),
        (
          rm-Keeps _ (log_path name) (log_path-ne name),
          (
            unmount_loop-Keeps (log_dir name) 100,
            (rm-Keeps _ (log_dir name) (log_dir-ne name), tt),
          ),
        ),
      ),
    ),
  )

  return_actions-Keeps : (addr : Bytes) → All (Keeps P) (return_actions h addr)
  unfolding return_actions
  return_actions-Keeps addr = (sysfs-Keeps _ _ _, (sysfs-Keeps _ _ _, (sysfs-Keeps _ _ _, tt)))

  pub config-Keeps : (text : Bytes) → Keeps P (config_action h text)
  config-Keeps text w p =
      config_action-Keeps h P text (inert.mkdir config_dir 493)
        (λ t v q. inert.write (tmp_of config_path) t 420 v config_path-ne.1 q)
        (λ v q. inert.rename (tmp_of config_path) config_path v config_path-ne.1 config_path-ne.0 q)
        w p

  pub forget_stage-Keeps : (text : Bytes) → All (KeepsStage P) (forget_stage h text ∷ [])
  forget_stage-Keeps text = ((config-Keeps text, tt), tt)

  pub disable_stages-Keeps :
      (name : Bytes) (dev : Device) → All (KeepsStage P) (disable_stages h name dev)
  unfolding disable_stages stop_actions
  disable_stages-Keeps name dev = (
    (stop_unit-Keeps (unit_of name), tt),
    (removal_actions-Keeps name, (return_actions-Keeps dev.address, tt)),
  )
