-- ===== src/Devices/Udev/Keeps.antt =====
-- What the actions that remove a file and that write the configuration leave as they find it.
use vkage.Base.{Option, none, some, Bytes, ◌++◌, [], ◌∷◌}
use vkage.Host.{Host, RemoveError, missing, refused}
use vkage.Plan.Stages.Order.{Keeps}
use vkage.Plan.Actions.{tmp_of}
use vkage.Plan.Actions.Keeps.{save_run-Keeps}
use vkage.Devices.Udev.{config_dir, config_path, removed, remove_action, config_action}

module _ (h : Host) (P : h.World → Type 0) where
  removed-Keeps : (r : Option (RemoveError h.Fault) × h.World) → P r.1 → P (removed h r).1
  unfolding removed
  removed-Keeps (none, w) p = p
  removed-Keeps (some missing, w) p = p
  removed-Keeps (some (refused e), w) p = p

  pub remove_action-Keeps :
      (show path : Bytes)
      → ((w : h.World) → P w → P (h.remove path w).1)
      → Keeps P (remove_action h show path)
  unfolding remove_action
  remove_action-Keeps show path k w p = removed-Keeps (h.remove path w) (k w p)

  pub config_action-Keeps :
      (text : Bytes)
      → ((w : h.World) → P w → P (h.mkdir_all config_dir 493 w).1)
      → ((text : Bytes) (w : h.World) → P w → P (h.write_file (tmp_of config_path) text 420 w).1)
      → ((w : h.World) → P w → P (h.rename (tmp_of config_path) config_path w).1)
      → Keeps P (config_action h text)
  unfolding config_action
  config_action-Keeps text mk wr mv w p =
      save_run-Keeps h P config_dir config_path text w mk (wr (text ++ b'\n' ∷ [])) mv p
