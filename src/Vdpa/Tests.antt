-- ===== src/Vdpa/Tests.antt =====
-- A device that is busy for a while, and one that stays so.
use vkage.Base.{ℕ, ◌-◌, ◌≡◌, refl, true, false, none, some, [], arith, ◌==◌, if◌then◌else◌}
use vkage.Vdpa.{VdpaHost, busy, destroy}
use vkage.Vdpa.Eventually.{Waits, here, round, destroy_eventually}

-- The world is how many rounds the device is busy for yet; a sleep takes one.
abbrev counting : VdpaHost
counting = record {
  World = ℕ;
  Fault = ℕ;
  exists = λ n. true;
  attached = λ n. false;
  driver = λ n. [];
  dev_add = λ n. (none, n);
  dev_del = λ n. (none, n);
  unbind = λ n. (none, n);
  bind = λ n. (none, n);
  lower_timeout = λ n. n;
  open_control = λ n. none;
  destroy_ioctl = λ n. (if n == 0 then none else some busy, n);
  pause = λ n. n - 1;
}

busy_twice : Waits counting 2 2 0
busy_twice = round 1 2 2 0 refl refl (round 0 1 1 0 refl refl (here 0))

destroy_eventually_example : destroy counting 2 ≡ (none, 0)
destroy_eventually_example =
    destroy_eventually counting 2 2 0 0 refl refl busy_twice (omega arith) refl
