-- ===== src/Tester/Platform/Tests.antt =====
-- Runs of platform-bind, and instances of its theorems.
use vkage.Base.{
  ℕ, ◌≡◌, ◌≢◌, refl, ap, ◌⊎◌, inl, inr, true, false, [], ◌∷◌, none, some, Bytes, codes, str_eq,
  if◌then◌else◌, arith,
}
use vkage.Tester.Platform.{PlatformHost, vfio_platform, platform_bind}
use vkage.Tester.Platform.Laws.{PlatformLaws, parameter_of, given_for, platform_bind_ok}
use vkage.Tester.Platform.Refusals.{platform_bind_refuses}

-- A device, with its driver and its override.
pub record Device : Type 0 where
  pub drv : Bytes
  pub overriding : Bytes

-- A platform device, and the module with its parameter.
pub record Platform : Type 0 where
  pub device : Device
  pub parameter : Bytes

abbrev load_setting : Bytes → Platform → Platform
load_setting s w =
    if str_eq w.parameter []
    then record w { parameter = if str_eq s (codes "0") then codes "N" else codes "Y" }
    else w

abbrev platform : PlatformHost
platform = record {
  World = Platform;
  Fault = ℕ;
  is_root = true;
  usb = λ w. [];
  group = λ w. some (codes "3");
  driver = λ w. w.device.drv;
  links = λ w. [];
  reset_required = λ w. w.parameter;
  bound = λ w. [];
  kernel_log = λ w. [];
  unload = λ w. (none, record w { parameter = [] });
  load_type1 = λ w. w;
  load = λ s w. (none, load_setting s w);
  write_override =
      λ v w. (none, record w { device = record { drv = w.device.drv; overriding = v } });
  unbind = λ w. (none, record w { device = record { drv = []; overriding = w.device.overriding } });
  probe = λ w. (
    none,
    record w {
      device = record {
        drv = if str_eq w.device.overriding vfio_platform then vfio_platform else codes "xhci-hcd";
        overriding = w.device.overriding;
      };
    },
  );
}

load_sets :
    (no_reset : _) (w : Platform)
    → (w.parameter ≡ []) ⊎ (w.parameter ≡ parameter_of no_reset)
    → (load_setting (given_for no_reset) w).parameter ≡ parameter_of no_reset
unfolding str_eq
load_sets true w (inl e) = rw e refl
load_sets false w (inl e) = rw e refl
load_sets true w (inr e) = rw e refl
load_sets false w (inr e) = rw e refl

platform_laws : PlatformLaws platform
platform_laws = record {
  unloaded = λ w e. refl;
  loaded = λ no_reset w e have. load_sets no_reset w have;
  type1_keeps = λ w. refl;
  override_keeps = λ v w. refl;
  unbind_keeps = λ w. refl;
  probe_keeps = λ w. refl;
}

-- On its own driver, with the module loaded for devices that can be reset.
abbrev xhci : Platform
xhci = record { device = record { drv = codes "xhci-hcd"; overriding = [] }; parameter = codes "Y" }

platform_bound : platform_bind platform true xhci ≡ (
  none,
  record {
    device = record { drv = vfio_platform; overriding = vfio_platform };
    parameter = codes "N";
  },
)
unfolding platform_bind str_eq
platform_bound = refl

platform_ok : (platform_bind platform true xhci).0 ≡ none
platform_ok = rw platform_bound refl

platform_bind_ok_example :
    ((platform_bind platform true xhci).1.device.drv ≡ vfio_platform)
    × (((xhci.device.drv ≡ vfio_platform) × ((platform_bind platform true xhci).1 ≡ xhci))
        ⊎ ((platform_bind platform true xhci).1.parameter ≡ codes "N"))
platform_bind_ok_example = platform_bind_ok platform platform_laws true xhci platform_ok

-- The same with another device on the module.
abbrev busy_platform : PlatformHost
busy_platform = record platform { bound = λ w. codes "NVDA8000:02" ∷ [] }

head : Bytes → ℕ
head [] = 0
head (b ∷ s) = b

platform_bind_refuses_example :
    ((platform_bind busy_platform true xhci).0 ≢ none)
    × ((platform_bind busy_platform true xhci).1 ≡ xhci)
unfolding head
platform_bind_refuses_example = platform_bind_refuses busy_platform true xhci (
    inr (
      inr (
        inr record {
          elsewhere = λ e. absurd (cc e);
          loaded = λ e. absurd (cc e);
          other_setting = λ e. absurd (ground (arith, ap head e));
          has_devices = λ e. absurd (cc e);
        })))
