-- ===== src/Devices/Tests.antt =====
-- Runs of enabling and disabling devices, and instances of their theorems.
use vkage.Config.Sizes.{parse_size}
use vkage.Base.{
  count, has_prefix, split, decimal, trim_prefix, ℕ, ◌≡◌, refl, sym, ◌∙◌, str_eq, true, false, [],
  ◌∷◌, List, Option, none, some, Bytes, codes, Result, ok, err,
}
use mathlib.Core.Path.{subst}
use vkage.Host.Sample.{Files, sample, sample_laws, put_elsewhere, put}
use vkage.Plan.Stages.{Console, Stage, run_stages}
use vkage.Plan.Stages.Order.{First}
use vkage.Pci.Address.{class_type, match_driver, check_peers, normalize_address, valid_address}
use vkage.Pci.Queries.{PciReads, device_type, guest_driver, check_group}
use vkage.Config.Names.{check_name, default_name}
use vkage.Config.Devices.{Config, Entry, known_type, lookup}
use vkage.Config.Devices.Laws.{IsValid}
use vkage.Devices.Udev.{DeviceError, rule_path, udev_actions}
use vkage.Devices.Udev.Rules.{IsRulesOf}
use vkage.Devices.Disable.{disable_plan, disable_key}
use vkage.Devices.Disable.Order.{Inert}
use vkage.Devices.Disable.Rules.{Removes, disable_rules-First}
use vkage.Devices.Disable.Key.{disable_key-IsValid}
use vkage.Devices.Enable.{Queries, Enabling, enable}
use vkage.Devices.Enable.Groups.{IsSound, enable-IsSound}

abbrev wifi : Entry
wifi = record {
  name = codes "wlan-02-00-0";
  device = record {
    address = codes "0000:02:00.0";
    typ = codes "wlan";
    memory = [];
    memory_max = 0;
    options = [];
    args = [];
    irq_cpus = [];
  };
}

wifi_valid : IsValid wifi
unfolding check_name known_type valid_address str_eq
wifi_valid = record { named = refl; typed = refl; addressed = refl }

wifi_keys :
    (disable_key (codes "wlan-02-00-0") ≡ codes "wlan-02-00-0")
    × (disable_key (codes "0000:02:00.0") ≡ codes "0000:02:00.0")
wifi_keys = disable_key-IsValid wifi wifi_valid

upper_key : disable_key (codes "02:00.0") ≡ codes "0000:02:00.0"
unfolding disable_key normalize_address valid_address str_eq count
upper_key = refl

-- A machine with a network card of its own group beside the wireless one.
abbrev groups : Bytes → Option Bytes
groups addr = some addr

abbrev reads : PciReads ℕ
reads = record {
  match = λ pattern text. true;
  class = λ addr. ok (codes "0x020000");
  modalias = λ addr. ok (codes "pci:v00008086d000015B8");
  modinfo = ok (codes "e1000e.alias=pci:v00008086d000015B8sv*");
  group = groups;
  peers = λ group. ok (record { name = codes "0000:03:00.0"; driver = codes "e1000e" } ∷ []);
}

abbrev machine : Queries ℕ
machine = record { installed = true; pci = reads; load = ok (wifi ∷ []) }

abbrev enabled : Enabling
enabled = record {
  name = codes "net-03-00-0";
  config =
      wifi
      ∷ record {
        name = codes "net-03-00-0";
        device = record {
          address = codes "0000:03:00.0";
          typ = codes "net";
          memory = codes "256M";
          memory_max = 0;
          options = [];
          args = [];
          irq_cpus = [];
        };
      }
      ∷ [];
  is_new = true;
}

enabling : enable machine (codes "03:00.0") [] (codes "256M") ≡ ok enabled
unfolding enable normalize_address valid_address device_type guest_driver check_group str_eq count
    class_type has_prefix match_driver split check_peers parse_size decimal lookup check_name
    default_name trim_prefix
enabling = refl

wifi-IsSound : IsSound machine (wifi ∷ [])
wifi-IsSound = ((wifi_valid, tt), (tt, tt))

loaded-IsSound : (c : Config) → machine.load ≡ ok c → IsSound machine c
loaded-IsSound c e = let same : (wifi ∷ []) ≡ c = cc e in subst (IsSound machine) same wifi-IsSound

enable-IsSound_example : IsSound machine enabled.config
enable-IsSound_example =
    enable-IsSound machine (codes "03:00.0") [] (codes "256M") enabled loaded-IsSound enabling

-- Nothing but a write to the rules changes them on the small host.
rules_inert : (t : Option Bytes) → Inert sample (λ w. w rule_path ≡ t)
rules_inert t = record {
  systemctl = λ args w p. p;
  udevadm = λ args w p. p;
  vdpa_tool = λ args w p. p;
  sysfs = λ path value w p. p;
  ioctl = λ name w p. p;
  pause = λ w p. p;
  unmount = λ dir w p. p;
  remove = λ path w ne p. put_elsewhere path rule_path none w (λ e. ne (sym e)) ∙ p;
  mkdir = λ dir m w p. p;
  write = λ path text m w ne p. put_elsewhere path rule_path (some text) w (λ e. ne (sym e)) ∙ p;
  rename = λ p q w np nq r.
      put_elsewhere q rule_path (w p) (put p none w) (λ e. nq (sym e))
      ∙ put_elsewhere p rule_path none w (λ e. np (sym e))
      ∙ r;
}

abbrev before : Console Files
before = record { printed = []; enters = []; world = λ p. none }

abbrev marshal : Config → Result Unit Bytes
marshal c = ok (codes "{}")

abbrev planned : List (Stage Files (DeviceError Unit))
planned = elim (disable_plan sample marshal enabled.config (codes "wlan-02-00-0") wifi.device) [
  | err e ↦ []
  | ok stages ↦ stages
]

is_planned :
    disable_plan sample marshal enabled.config (codes "wlan-02-00-0") wifi.device ≡ ok planned
unfolding disable_plan
is_planned = refl

disable_rules-First_example :
    (left : Config) × Removes (codes "wlan-02-00-0") enabled.config left
    × First
        (λ w. IsRulesOf left (w rule_path))
        before.world
        (udev_actions sample left)
        (run_stages false planned false true before).1.world
disable_rules-First_example =
    disable_rules-First sample sample_laws marshal enabled.config (codes "wlan-02-00-0") wifi.device
      planned false true before rules_inert is_planned
