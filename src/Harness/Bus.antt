-- ===== src/Harness/Bus.antt =====
-- `Attach`, `Detach`, `Destroy` and `Cleanup` of tools/internal/harness/harness.go, over Vdpa.
use vkage.Base.{Bool, true, false, ◌≡◌, none, some}
use vkage.Vdpa.{VdpaHost, Outcome, add, bind_virtio, remove, destroy}
use vkage.Vdpa.Laws.{VdpaLaws, remove_off_bus, destroy_gone}

module _ (h : VdpaHost) where
  added : Outcome h → Outcome h
  unfolding bind_virtio
  added (none, w) = bind_virtio h w
  added (some e, w) = (some e, w)

  unfoldable pub attach : h.World → Outcome h
  unfolding added add
  attach w = added (add h w)

  unfoldable pub detach : Bool → h.World → Outcome h
  unfolding remove
  detach guest_gone w = remove h guest_gone w

  -- The errors of both are ignored.
  unfoldable pub cleanup : h.World → h.World
  unfolding remove destroy
  cleanup w = (destroy h (remove h true w).1).1

  -- A cleanup of which neither step reports an error leaves no device, on the bus or off it.
  pub cleanup_gone :
      (laws : VdpaLaws h) (w : h.World)
      → (remove h true w).0 ≡ none
      → (destroy h (remove h true w).1).0 ≡ none
      → (h.exists (cleanup w) ≡ false) × (h.attached (cleanup w) ≡ false)
  unfolding cleanup
  cleanup_gone laws w removed gone =
      destroy_gone h laws (remove h true w).1 (remove_off_bus h laws true w removed) gone
