-- ===== src/Devices/Enable/Tests.antt =====
-- A run of the stages of `enable` on a host on which systemctl starts the guest.
use vkage.Base.{
  ◌≡◌, ◌⊎◌, ◌∙◌, refl, sym, Bool, true, false, [], ◌∷◌, none, some, Bytes, codes, str_eq,
  if◌then◌else◌,
}
use vkage.Host.{Host}
use vkage.Host.Sample.{Files, put, put_elsewhere, found}
use vkage.Plan.Stages.{Console, run_stages}
use vkage.Config.Devices.{Config}
use vkage.Devices.Udev.{rule_path}
use vkage.Devices.Disable.Order.{Inert}
use vkage.Devices.Enable.{Enabling, enable_stages}
use vkage.Devices.Enable.Order.{GuestLaws, enable_rules-Before}

-- The files, and whether the guest runs.
record Machine : Type 0 where
  files : Files
  up : Bool

abbrev machine : Host
machine = record {
  World = Machine;
  Fault = Unit {0};
  command =
      λ name args w. (none, if str_eq name (codes "systemctl") then record w { up = true } else w);
  sysfs_write = λ path value w. (none, w);
  exists = λ name w. true;
  attached = λ name w. false;
  vdpa_driver = λ name w. [];
  open_control = λ w. none;
  destroy_ioctl = λ name w. (none, w);
  pause = λ w. w;
  present = λ addr w. true;
  pci_driver = λ addr w. [];
  content = λ p w. w.files p;
  write_file = λ p c m w. (none, record w { files = put p (some c) w.files });
  chmod = λ p m w. (none, w);
  rename = λ p q w. (none, record w { files = put q (w.files p) (put p none w.files) });
  remove = λ p w. (found (w.files p), record w { files = put p none w.files });
  mkdir_all = λ d m w. (none, w);
  same_file = λ p q w. str_eq p q;
  open_source = λ p w. none;
  create = λ p m w. (none, record w { files = put p (some []) w.files });
  copy_data = λ p q w. (none, record w { files = put q (w.files p) w.files });
  close = λ p w. (none, w);
  is_mount_point = λ d w. true;
  unmount = λ d w. (none, w);
}

rules_inert : Inert machine (λ w. w.files rule_path ≡ none)
unfolding str_eq
rules_inert = record {
  systemctl = λ args w p. p;
  udevadm = λ args w p. p;
  vdpa_tool = λ args w p. p;
  sysfs = λ path value w p. p;
  ioctl = λ name w p. p;
  pause = λ w p. p;
  unmount = λ dir w p. p;
  remove = λ path w ne p. put_elsewhere path rule_path none w.files (λ e. ne (sym e)) ∙ p;
  mkdir = λ dir m w p. p;
  write =
      λ path text m w ne p. put_elsewhere path rule_path (some text) w.files (λ e. ne (sym e)) ∙ p;
  rename = λ p q w np nq r.
      put_elsewhere q rule_path (w.files p) (put p none w.files) (λ e. nq (sym e))
      ∙ put_elsewhere p rule_path none w.files (λ e. np (sym e))
      ∙ r;
}

abbrev name : Bytes
name = codes "wlan-02-00-0"

machine_laws : GuestLaws machine name
unfolding str_eq
machine_laws = record {
  started = λ w. w.up;
  starts = λ w done. refl;
  udevadm = λ args w s. s;
  write = λ path text m w s. s;
  chmod = λ path m w s. s;
  rename = λ p q w s. s;
  remove = λ path w s. s;
}

abbrev devices : Config
devices =
    record {
      name = name;
      device = record {
        address = codes "0000:02:00.0";
        typ = codes "wlan";
        memory = [];
        memory_max = 0;
        options = [];
        args = [];
        irq_cpus = [];
      };
    }
    ∷ []

abbrev enabling : Enabling
enabling = record { name = name; config = devices; is_new = true }

abbrev before : Console Machine
before = record { printed = []; enters = []; world = record { files = λ p. none; up = false } }

abbrev after : Machine
after = (run_stages false (enable_stages machine enabling (codes "{}")) false true before).1.world

enable_rules-Before_example : (after.files rule_path ≡ none) ⊎ (machine_laws.started after ≡ true)
enable_rules-Before_example =
    enable_rules-Before machine enabling machine_laws (codes "{}") false true before rules_inert
