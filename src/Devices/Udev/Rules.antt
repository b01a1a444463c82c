-- ===== src/Devices/Udev/Rules.antt =====
-- What the file of the udev rules holds after it was written.
use mathlib.Core.List.{Perm, flatten}
use mathlib.Core.Path.{subst}
use vkage.Base.{◌++◌, map, codes, ◌≡◌, refl, sym, ap, [], ◌∷◌, Option, none, some, Bytes}
use vkage.Host.{Host, RemoveError, missing, refused}
use vkage.Host.Files.{FileLaws}
use vkage.Plan.Actions.{write_run, write_action}
use vkage.Plan.Actions.Atomic.{write_run-IsAtomic, IsLast}
use vkage.Config.Devices.{Config, Entry}
use vkage.Config.Order.{sorted}
use vkage.Config.Order.Sorted.{sorted-perm}
use vkage.Devices.Udev.{
  DeviceError, fault, rule_path, rule_line, rule_lines, rule_text, removed, remove_action,
  write_rules,
}

-- What the file of the udev rules holds for a configuration; without devices there is none.
abbrev pub rules_file : Config → Option Bytes
rules_file [] = none
rules_file (e ∷ es) = some (rule_text (e ∷ es))

-- The world has the rules of the configuration.
abbrev pub HasRules : (h : Host) → Config → h.World → Type 0
HasRules h c w = h.content rule_path w ≡ rules_file c

-- The line that has udev keep the device of an address for vfio-pci.
abbrev pub rule_of : Bytes → Bytes
rule_of addr =
    codes "ACTION==\"add\", SUBSYSTEM==\"pci\", KERNEL==\""
    ++ (addr ++ codes "\", ATTR{driver_override}=\"vfio-pci\"\n")

-- The file of the rules for these devices and no others: a line for each, in some order, behind the
-- first line; and no file where there are none.
pub data IsRulesOf (c : Config) (file : Option Bytes) : Type 0 where
  no_rules : c ≡ [] → file ≡ none → IsRulesOf c file
  rules :
      (order : Config)
      → Perm order c
      → file
        ≡ some (
            codes "# Written by invirtio enable and disable.\n"
            ++ flatten (map (λ (e : Entry). rule_of e.device.address) order))
      → IsRulesOf c file

rule_lines-flatten :
    (c : Config) → rule_lines c ≡ flatten (map (λ (e : Entry). rule_of e.device.address) c)
unfolding rule_lines rule_line flatten
rule_lines-flatten [] = refl
rule_lines-flatten (e ∷ es) = ap (λ t. rule_of e.device.address ++ t) (rule_lines-flatten es)

rules_file-IsRulesOf : (c : Config) → IsRulesOf c (rules_file c)
unfolding rule_text
rules_file-IsRulesOf [] = no_rules refl refl
rules_file-IsRulesOf (e ∷ es) = rules (sorted (e ∷ es)) (sorted-perm (e ∷ es)) (
    ap (λ t. some (codes "# Written by invirtio enable and disable.\n" ++ t))
      (rule_lines-flatten (sorted (e ∷ es))))

pub HasRules-IsRulesOf :
    (h : Host) (c : Config) (w : h.World) → HasRules h c w → IsRulesOf c (h.content rule_path w)
HasRules-IsRulesOf h c w has = subst (IsRulesOf c) (sym has) (rules_file-IsRulesOf c)

module _ (h : Host) (laws : FileLaws h) where
  removed_gone :
      (path : Bytes) (w : h.World) (r : Option (RemoveError h.Fault) × h.World)
      → h.remove path w ≡ r
      → (removed h r).0 ≡ none
      → h.content path (removed h r).1 ≡ none
  unfolding removed
  removed_gone path w (none, v) e done =
      let k = laws.remove_done path w in rw (sym (ap (λ r. r.1) e)) (k (ap (λ r. r.0) e))
  removed_gone path w (some missing, v) e done =
      let k = laws.remove_missing path w in rw (sym (ap (λ r. r.1) e)) (k (ap (λ r. r.0) e))
  removed_gone path w (some (refused x), v) e done = absurd (cc done)

  of_last :
      (text : Bytes) (old : Option Bytes) (o : Option h.Fault) (w : h.World)
      → elim o as (λ o. Option (DeviceError h.Fault)) [ none ↦ none | some x ↦ some (fault x) ]
        ≡ none
      → IsLast h rule_path old (some text) o w
      → h.content rule_path w ≡ some text
  of_last text old none w done l = l
  of_last text old (some e) w done l = absurd (cc done)

  pub write_rules-HasRules :
      (c : Config) (w : h.World)
      → ((write_rules h c).run w).0 ≡ none
      → HasRules h c ((write_rules h c).run w).1
  unfolding write_rules remove_action write_action
  write_rules-HasRules [] w done = removed_gone rule_path w (h.remove rule_path w) refl done
  write_rules-HasRules (e ∷ es) w done =
      let t = write_run h rule_path (rule_text (e ∷ es)) 420 w in
      of_last (rule_text (e ∷ es)) (h.content rule_path w) t.error t.world done
        (write_run-IsAtomic h laws rule_path (rule_text (e ∷ es)) 420 w).1
