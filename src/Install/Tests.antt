-- ===== src/Install/Tests.antt =====
-- An install on a host without an IOMMU, and an instance of the theorem on its checks.
use vkage.Base.{
  ◌≡◌, refl, true, false, List, [], ◌∷◌, ◌++◌, none, some, Bytes, codes, str_eq, ok, err,
}
use vkage.Host.Sample.{Files, sample}
use vkage.Plan.Stages.{Console, Stage, failed, run_actions, run_stages}
use vkage.Install.{copies_of, InstallError, no_iommu_groups, Installer, host_checks}
use vkage.Install.Stages.{install_stages}
use vkage.Install.Checks.{install_checks-Keeps}

abbrev joined : List Bytes → Bytes
joined [] = []
joined (p ∷ ps) = p ++ (codes "/" ++ joined ps)

abbrev installer : Installer sample
installer = record {
  join = joined;
  dir = λ p. codes "/build";
  abs = λ p. ok p;
  executable = ok (codes "/build/invirtio");
  stat = λ p w. none;
  user_known = λ name w. true;
  iommu_groups = λ w. [];
  has_command = λ name w. true;
  warn = λ msg w. w;
}

abbrev bare : Console Files
bare = record { printed = []; enters = []; world = λ p. none }

abbrev stages : List (Stage Files (InstallError Unit))
stages = elim (install_stages sample installer (codes "/build") [] [] bare.world) [
  | err e ↦ []
  | ok ss ↦ ss
]

is_staged : install_stages sample installer (codes "/build") [] [] bare.world ≡ ok stages
unfolding install_stages copies_of str_eq
is_staged = refl

no_iommu :
    run_actions (host_checks sample installer) bare.world
    ≡ (some (failed no_iommu_groups), bare.world)
unfolding run_actions host_checks
no_iommu = refl

install_checks-Keeps_example :
    (run_stages false stages false true bare).1.world (codes "/etc/invirtio/devices.json") ≡ none
install_checks-Keeps_example =
    install_checks-Keeps sample installer
      (λ (w : Files). w (codes "/etc/invirtio/devices.json") ≡ none) (λ args w p. p) (λ msg w p. p)
      (codes "/build") [] [] bare.world bare.world stages false true bare (failed no_iommu_groups)
      is_staged no_iommu refl
