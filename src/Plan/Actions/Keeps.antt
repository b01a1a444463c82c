-- ===== src/Plan/Actions/Keeps.antt =====
-- What the actions leave as they find it.
use vkage.Base.{ℕ, inl, inr, Bool, List, [], ◌∷◌, ◌++◌, Option, none, some, Bytes, Bool-cases}
use vkage.Host.{Host}
use vkage.Plan.Stages.Order.{Keeps}
use vkage.Plan.Actions.{
  Traced, ended, step_then, tmp_of, step_or_remove, write_run, write_action, sysfs_run,
  sysfs_action, save_run,
}

module _ (h : Host) (P : h.World → Type 0) where
  sysfs_run-Keeps :
      (path value : Bytes) (needed : Option (h.World → Bool))
      → ((value : Bytes) (w : h.World) → P w → P (h.sysfs_write path value w).1)
      → (w : h.World) → P w
      → P (sysfs_run h path value needed w).1
  unfolding sysfs_run
  sysfs_run-Keeps path value none k w p = k _ w p
  sysfs_run-Keeps path value (some needed) k w p = elim (Bool-cases (needed w)) [
    | inl yes' ↦ rw yes' (k _ w p)
    | inr no' ↦ rw no' p
  ]

  pub sysfs_action-Keeps :
      (path value : Bytes) (needed : Option (h.World → Bool))
      → ((value : Bytes) (w : h.World) → P w → P (h.sysfs_write path value w).1)
      → Keeps P (sysfs_action h path value needed)
  unfolding sysfs_action
  sysfs_action-Keeps path value needed k w p = sysfs_run-Keeps path value needed k w p

  step_then-Keeps :
      (ws : List h.World) (r : Option h.Fault × h.World) (next : List h.World → h.World → Traced h)
      → P r.1
      → ((vs : List h.World) → P (next vs r.1).world)
      → P (step_then h ws r next).world
  unfolding step_then ended
  step_then-Keeps ws (none, w) next p k = k _
  step_then-Keeps ws (some e, w) next p k = p

  ended-Keeps : (ws : List h.World) (r : Option h.Fault × h.World) → P r.1 → P (ended h ws r).world
  unfolding ended
  ended-Keeps ws (e, w) p = p

  step_or_remove-Keeps :
      (tmp : Bytes) (ws : List h.World) (r : Option h.Fault × h.World)
      (next : List h.World → h.World → Traced h)
      → ((w : h.World) → P w → P (h.remove tmp w).1)
      → P r.1
      → ((vs : List h.World) → P (next vs r.1).world)
      → P (step_or_remove h tmp ws r next).world
  unfolding step_or_remove
  step_or_remove-Keeps tmp ws (none, w) next rm p k = k _
  step_or_remove-Keeps tmp ws (some e, w) next rm p k = rm w p

  pub write_action-Keeps :
      (path content : Bytes) (mode : ℕ)
      → ((w : h.World) → P w → P (h.write_file (tmp_of path) content mode w).1)
      → ((w : h.World) → P w → P (h.chmod (tmp_of path) mode w).1)
      → ((w : h.World) → P w → P (h.rename (tmp_of path) path w).1)
      → ((w : h.World) → P w → P (h.remove (tmp_of path) w).1)
      → Keeps P (write_action h path content mode)
  unfolding write_action write_run
  write_action-Keeps path content mode wr ch mv rm w p =
      let wrote = h.write_file (tmp_of path) content mode w in
      let moded = h.chmod (tmp_of path) mode wrote.1 in
      step_then-Keeps [] wrote _ (wr w p) (λ vs.
        step_or_remove-Keeps (tmp_of path) vs moded
          (λ ws2 w2. ended h ws2 (h.rename (tmp_of path) path w2)) rm (ch wrote.1 (wr w p))
          (λ us.
            ended-Keeps us (h.rename (tmp_of path) path moded.1)
              (mv moded.1 (ch wrote.1 (wr w p)))))

  pub save_run-Keeps :
      (dir path text : Bytes) (w : h.World)
      → ((w : h.World) → P w → P (h.mkdir_all dir 493 w).1)
      → ((w : h.World) → P w → P (h.write_file (tmp_of path) (text ++ b'\n' ∷ []) 420 w).1)
      → ((w : h.World) → P w → P (h.rename (tmp_of path) path w).1)
      → P w
      → P (save_run h dir path text w).world
  unfolding save_run
  save_run-Keeps dir path text w mk wr mv p =
      let made = h.mkdir_all dir 493 w in
      let written = h.write_file (tmp_of path) (text ++ b'\n' ∷ []) 420 made.1 in
      let moved = h.rename (tmp_of path) path written.1 in
      step_then-Keeps [] made
        (λ ws1 w1.
          step_then h ws1 (h.write_file (tmp_of path) (text ++ b'\n' ∷ []) 420 w1)
            (λ ws2 w2. ended h ws2 (h.rename (tmp_of path) path w2)))
        (mk w p)
        (λ vs.
          step_then-Keeps vs written (λ ws2 w2. ended h ws2 (h.rename (tmp_of path) path w2))
            (wr made.1 (mk w p)) (λ us. ended-Keeps us moved (mv written.1 (wr made.1 (mk w p)))))
