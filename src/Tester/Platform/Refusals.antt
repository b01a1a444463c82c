-- ===== src/Tester/Platform/Refusals.antt =====
-- Where binding a platform device is refused, the host is as it was.
use vkage.Base.{
  ◌≡◌, ◌≢◌, refl, ◌⊎◌, inl, inr, Bool, false, ◌||◌, List, [], ◌∷◌, Option, none, some, Bytes,
  str_eq, str_eq_iff, Bool-cases, arith,
}
use vkage.Tester.Platform.{
  PlatformHost, Outcome, vfio_platform, wanted, reload, bind_group, bind_unused, platform_bind,
}

module _ (h : PlatformHost) (no_reset : Bool) where
  -- The module is loaded with the other setting, and has devices.
  pub record Mismatch (w : h.World) : Type 0 where
    pub elsewhere : h.driver w ≢ vfio_platform
    pub loaded : h.reset_required w ≢ []
    pub other_setting : h.reset_required w ≢ wanted no_reset
    pub has_devices : h.bound w ≢ []

  abbrev Refused : h.World → Outcome h → Type 0
  Refused w o = (o.0 ≢ none) × (o.1 ≡ w)

  reload_refuses :
      (cur : Bytes) (ds : List Bytes) (w : h.World)
      → ds ≢ []
      → Refused w (reload h no_reset cur ds w)
  unfolding reload
  reload_refuses cur [] w ne = absurd (ne refl)
  reload_refuses cur (d ∷ ds) w ne = (λ f. absurd (cc f), refl)

  bind_group_refuses :
      (g : Option Bytes) (w : h.World)
      → (g ≡ none) ⊎ Mismatch w
      → Refused w (bind_group h no_reset g w)
  unfolding bind_group
  bind_group_refuses none w why = (λ f. absurd (cc f), refl)
  bind_group_refuses (some g) w (inl e) = absurd (cc e)
  bind_group_refuses (some g) w (inr m) =
      let off : str_eq (h.driver w) vfio_platform ≡ false =
        ground (arith, str_eq_iff (h.driver w) vfio_platform, m.elsewhere) in
      let other : str_eq (h.reset_required w) [] || str_eq (h.reset_required w) (wanted no_reset)
          ≡ false =
        ground (
          arith,
          str_eq_iff (h.reset_required w) [],
          str_eq_iff (h.reset_required w) (wanted no_reset),
          m.loaded,
          m.other_setting,
        ) in
      rw (off, other) (reload_refuses (h.driver w) (h.bound w) w m.has_devices)

  bind_unused_refuses :
      (us : List Bytes) (w : h.World)
      → (us ≢ []) ⊎ (h.is_root ≡ false) ⊎ (h.group w ≡ none) ⊎ Mismatch w
      → Refused w (bind_unused h no_reset us w)
  unfolding bind_unused
  bind_unused_refuses (u ∷ us) w why = (λ f. absurd (cc f), refl)
  bind_unused_refuses [] w (inl ne) = absurd (ne refl)
  bind_unused_refuses [] w (inr (inl user)) = rw user (λ f. absurd (cc f), refl)
  bind_unused_refuses [] w (inr (inr why)) = elim (Bool-cases h.is_root) [
    | inl root ↦ rw root (bind_group_refuses (h.group w) w why)
    | inr user ↦ rw user (λ f. absurd (cc f), refl)
  ]

  -- `platform-bind` reports an error and leaves the host as it is for a device with USB devices behind
  -- it, without root, for a device without an IOMMU group, and where vfio-platform is loaded with the
  -- other setting and has devices.
  pub platform_bind_refuses :
      (w : h.World)
      → (h.usb w ≢ []) ⊎ (h.is_root ≡ false) ⊎ (h.group w ≡ none) ⊎ Mismatch w
      → ((platform_bind h no_reset w).0 ≢ none) × ((platform_bind h no_reset w).1 ≡ w)
  unfolding platform_bind
  platform_bind_refuses w why = bind_unused_refuses (h.usb w) w why
