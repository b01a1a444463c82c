-- ===== src/Host/Sample.antt =====
-- A small host for the tests: its world is its files, its commands do nothing, and nothing fails but
-- the removal of a file that is not there.
use vkage.Base.{
  ◌≡◌, ◌≢◌, refl, ap, ◌∙◌, true, false, Option, none, some, Bytes, str_eq, str_eq_iff,
  if◌then◌else◌, Bool-cases, inl, inr, [],
}
use vkage.Host.{Host, RemoveError, missing}
use vkage.Host.Files.{FileLaws}

abbrev pub Files : Type 0
Files = Bytes → Option Bytes

abbrev pub put : Bytes → Option Bytes → Files → Files
put p c w q = if str_eq q p then c else w q

abbrev pub found : Option Bytes → Option (RemoveError Unit)
found none = some missing
found (some c) = none

abbrev pub sample : Host
sample = record {
  World = Files;
  Fault = Unit {0};
  command = λ name args w. (none, w);
  sysfs_write = λ path value w. (none, w);
  exists = λ name w. true;
  attached = λ name w. false;
  vdpa_driver = λ name w. [];
  open_control = λ w. none;
  destroy_ioctl = λ name w. (none, w);
  pause = λ w. w;
  present = λ addr w. true;
  pci_driver = λ addr w. [];
  content = λ p w. w p;
  write_file = λ p c m w. (none, put p (some c) w);
  chmod = λ p m w. (none, w);
  rename = λ p q w. (none, put q (w p) (put p none w));
  remove = λ p w. (found (w p), put p none w);
  mkdir_all = λ d m w. (none, w);
  same_file = λ p q w. str_eq p q;
  open_source = λ p w. none;
  create = λ p m w. (none, put p (some []) w);
  copy_data = λ p q w. (none, put q (w p) w);
  close = λ p w. (none, w);
  is_mount_point = λ d w. true;
  unmount = λ d w. (none, w);
}

pub put_elsewhere : (p q : Bytes) (c : Option Bytes) (w : Files) → q ≢ p → put p c w q ≡ w q
put_elsewhere p q c w ne = elim (Bool-cases (str_eq q p)) [
  | inl same ↦ absurd (ne ((str_eq_iff q p).0 same))
  | inr other ↦ rw other refl
]

pub put_done : (p : Bytes) (c : Option Bytes) (w : Files) → put p c w p ≡ c
put_done p c w = let same : str_eq p p ≡ true = (str_eq_iff p p).1 refl in rw same refl

pub sample_laws : FileLaws sample
sample_laws = record {
  write_elsewhere = λ p q c m w ne. put_elsewhere p q (some c) w ne;
  write_done = λ p c m w done. put_done p (some c) w;
  chmod_content = λ p q m w. refl;
  rename_done = λ p q w done. put_done q (w p) (put p none w);
  rename_failed = λ p q e w failed. absurd (cc failed);
  rename_elsewhere =
      λ p q r w np nq. put_elsewhere q r (w p) (put p none w) nq ∙ put_elsewhere p r none w np;
  remove_elsewhere = λ p q w ne. put_elsewhere p q none w ne;
  remove_done = λ p w done. put_done p none w;
  remove_missing = λ p w done. put_done p none w;
  create_elsewhere = λ p q m w ne. put_elsewhere p q (some []) w ne;
  copy_elsewhere = λ s p q w ne. put_elsewhere p q (w s) w ne;
  copy_done = λ s p w done. put_done p (w s) w;
  close_content = λ p q w. refl;
  same_content = λ p q w same. ap w ((str_eq_iff p q).0 same);
  mkdir_content = λ d q m w. refl;
}
