-- ===== src/Tester/Platform/Laws.antt =====
-- What binding a platform device achieves: the driver, and the module's setting.
use vkage.Base.{
  ◌≡◌, refl, ◌∙◌, ◌⊎◌, inl, inr, Bool, true, false, codes, ◌||◌, List, [], ◌∷◌, Option, none, some,
  Bytes, str_eq, str_eq_iff, Bool-cases,
}
use vkage.Tester.Platform.{
  PlatformHost, Outcome, vfio_platform, wanted, setting, and_then, probe_platform, unbind_from,
  load_and_bind, reload, bind_group, bind_unused, platform_bind,
}

-- What the module's parameter reads as where the device is to be reset, or not.
abbrev pub parameter_of : Bool → Bytes
parameter_of true = codes "N"
parameter_of false = codes "Y"

-- What the parameter is given as when the module is loaded, for the same.
abbrev pub given_for : Bool → Bytes
given_for true = codes "0"
given_for false = codes "1"

wanted_parameter : (no_reset : Bool) → wanted no_reset ≡ parameter_of no_reset
wanted_parameter true = refl
wanted_parameter false = refl

setting_given : (no_reset : Bool) → setting no_reset ≡ given_for no_reset
setting_given true = refl
setting_given false = refl

-- What is documented of the module: unloading it takes its parameter away, loading it with a
-- setting gives it that one where it was not loaded and leaves the one it has otherwise, and nothing
-- else changes the parameter.
pub record PlatformLaws (h : PlatformHost) : Type 0 where
  pub unloaded : (w : h.World) → (h.unload w).0 ≡ none → h.reset_required (h.unload w).1 ≡ []
  pub loaded :
      (no_reset : Bool) (w : h.World)
      → (h.load (given_for no_reset) w).0 ≡ none
      → (h.reset_required w ≡ []) ⊎ (h.reset_required w ≡ parameter_of no_reset)
      → h.reset_required (h.load (given_for no_reset) w).1 ≡ parameter_of no_reset
  pub type1_keeps : (w : h.World) → h.reset_required (h.load_type1 w) ≡ h.reset_required w
  pub override_keeps :
      (v : Bytes) (w : h.World) → h.reset_required (h.write_override v w).1 ≡ h.reset_required w
  pub unbind_keeps : (w : h.World) → h.reset_required (h.unbind w).1 ≡ h.reset_required w
  pub probe_keeps : (w : h.World) → h.reset_required (h.probe w).1 ≡ h.reset_required w

module _ (h : PlatformHost) (laws : PlatformLaws h) (no_reset : Bool) where
  loaded_wanted :
      (w : h.World)
      → (h.load (setting no_reset) w).0 ≡ none
      → (h.reset_required w ≡ []) ⊎ (h.reset_required w ≡ wanted no_reset)
      → h.reset_required (h.load (setting no_reset) w).1 ≡ wanted no_reset
  loaded_wanted w = rw (setting_given no_reset, wanted_parameter no_reset) (laws.loaded no_reset w)

  -- On vfio-platform, the module with the setting that was asked for.
  abbrev pub IsBound : h.World → Type 0
  IsBound w = (h.driver w ≡ vfio_platform) × (h.reset_required w ≡ wanted no_reset)

  -- An outcome without an error is such.
  abbrev Binds : Outcome h → Type 0
  Binds o = o.0 ≡ none → IsBound o.1

  abbrev Set : h.World → Type 0
  Set w = h.reset_required w ≡ wanted no_reset

  and_then-Binds :
      (o : Option h.Fault × h.World) (next : h.World → Outcome h)
      → (o.0 ≡ none → Binds (next o.1))
      → Binds (and_then h o next)
  unfolding and_then
  and_then-Binds (none, w) next k = k refl
  and_then-Binds (some e, w) next k = λ f. absurd (cc f)

  probe-Binds : (w : h.World) → Set w → Binds (probe_platform h no_reset w)
  unfolding probe_platform
  probe-Binds w s = elim (Bool-cases (str_eq (h.driver (h.probe w).1) vfio_platform)) [
    | inl on ↦
        rw on
          (λ f. ((str_eq_iff (h.driver (h.probe w).1) vfio_platform).0 on, laws.probe_keeps w ∙ s))
    | inr off ↦ rw off (λ f. absurd (cc f))
  ]

  unbind_from-Binds :
      (cur : Bytes) (w : h.World) → Set w → Binds (unbind_from h cur (probe_platform h no_reset) w)
  unfolding unbind_from
  unbind_from-Binds [] w s = probe-Binds w s
  unbind_from-Binds (b ∷ c) w s =
      and_then-Binds (h.unbind w) (probe_platform h no_reset)
        (λ f. probe-Binds (h.unbind w).1 (laws.unbind_keeps w ∙ s))

  type1_have :
      (w : h.World)
      → (h.reset_required w ≡ []) ⊎ Set w
      → (h.reset_required (h.load_type1 w) ≡ []) ⊎ Set (h.load_type1 w)
  type1_have w (inl e) = inl (laws.type1_keeps w ∙ e)
  type1_have w (inr e) = inr (laws.type1_keeps w ∙ e)

  load_and_bind-Binds :
      (cur : Bytes) (w : h.World)
      → (h.reset_required w ≡ []) ⊎ Set w
      → Binds (load_and_bind h no_reset cur w)
  unfolding load_and_bind
  load_and_bind-Binds cur w have =
      let v = h.load_type1 w in
      let next = unbind_from h cur (probe_platform h no_reset) in
      and_then-Binds (h.load (setting no_reset) v)
        (λ w1. and_then h (h.write_override vfio_platform w1) next)
        (λ f.
          let w1 = (h.load (setting no_reset) v).1 in
          and_then-Binds (h.write_override vfio_platform w1) next (λ g.
            unbind_from-Binds cur (h.write_override vfio_platform w1).1
              (laws.override_keeps vfio_platform w1 ∙ loaded_wanted v f (type1_have w have))))

  -- Bound, or nothing was done.
  abbrev Ends : h.World → Outcome h → Type 0
  Ends w o =
      o.0 ≡ none
      → (h.driver o.1 ≡ vfio_platform) × (((h.driver w ≡ vfio_platform) × (o.1 ≡ w)) ⊎ Set o.1)

  Binds-Ends : (w : h.World) (o : Outcome h) → Binds o → Ends w o
  Binds-Ends w o b = λ f. let (on, s) = b f in (on, inr s)

  reload-Binds : (cur : Bytes) (ds : List Bytes) (w : h.World) → Binds (reload h no_reset cur ds w)
  unfolding reload
  reload-Binds cur (d ∷ ds) w = λ f. absurd (cc f)
  reload-Binds cur [] w =
      and_then-Binds (h.unload w) (load_and_bind h no_reset cur)
        (λ f. load_and_bind-Binds cur (h.unload w).1 (inl (laws.unloaded w f)))

  same_setting :
      (w : h.World)
      → str_eq (h.reset_required w) [] || str_eq (h.reset_required w) (wanted no_reset) ≡ true
      → (h.reset_required w ≡ []) ⊎ Set w
  same_setting w e = elim (Bool-cases (str_eq (h.reset_required w) [])) [
    | inl bare ↦ inl ((str_eq_iff (h.reset_required w) []).0 bare)
    | inr full ↦ inr ((str_eq_iff (h.reset_required w) (wanted no_reset)).0 (rw full at e))
  ]

  bind_group-Ends : (g : Option Bytes) (w : h.World) → Ends w (bind_group h no_reset g w)
  unfolding bind_group
  bind_group-Ends none w = λ f. absurd (cc f)
  bind_group-Ends (some g) w = elim (Bool-cases (str_eq (h.driver w) vfio_platform)) [
    | inl on ↦ rw on (λ f. (
      (str_eq_iff (h.driver w) vfio_platform).0 on,
      inl ((str_eq_iff (h.driver w) vfio_platform).0 on, refl),
    ))
    | inr off ↦
        elim (Bool-cases
          (str_eq (h.reset_required w) [] || str_eq (h.reset_required w) (wanted no_reset))) [
            | inl same ↦
                rw (off, same)
                  (Binds-Ends w (load_and_bind h no_reset (h.driver w) w)
                    (load_and_bind-Binds (h.driver w) w (same_setting w same)))
            | inr other ↦
                rw (off, other)
                  (Binds-Ends w (reload h no_reset (h.driver w) (h.bound w) w)
                    (reload-Binds (h.driver w) (h.bound w) w))
          ]
  ]

  bind_unused-Ends : (us : List Bytes) (w : h.World) → Ends w (bind_unused h no_reset us w)
  unfolding bind_unused
  bind_unused-Ends (u ∷ us) w = λ f. absurd (cc f)
  bind_unused-Ends [] w = elim (Bool-cases h.is_root) [
    | inl root ↦ rw root (bind_group-Ends (h.group w) w)
    | inr user ↦ rw user (λ f. absurd (cc f))
  ]

  -- Where the module's parameter behaves as documented and `platform-bind` reports no error, the
  -- device is on vfio-platform; and either it was there before and the host is as it was, or the module
  -- is loaded with the setting that was asked for: its parameter is N with -no-reset and Y without.
  pub platform_bind_ok :
      (w : h.World)
      → (platform_bind h no_reset w).0 ≡ none
      → (h.driver (platform_bind h no_reset w).1 ≡ codes "vfio-platform")
        × (((h.driver w ≡ codes "vfio-platform") × ((platform_bind h no_reset w).1 ≡ w))
            ⊎ (h.reset_required (platform_bind h no_reset w).1 ≡ parameter_of no_reset))
  unfolding platform_bind
  platform_bind_ok w f =
      let (on, s) = bind_unused-Ends (h.usb w) w f in
      (on, elim s [ inl same ↦ inl same | inr set ↦ inr (set ∙ wanted_parameter no_reset) ])
