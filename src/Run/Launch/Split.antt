-- ===== src/Run/Launch/Split.antt =====
-- The commas of a device's arguments: what the launcher and the guest find between them.
use vkage.Base.{
  ◌==◌, false, ℕ, ◌≡◌, refl, sym, ap, ◌∙◌, inl, inr, true, List, [], ◌∷◌, ◌++◌, append-nil, Bytes,
  codes, str_eq, str_eq_iff, split, arith, All, All-append, Bool-cases,
}
use mathlib.Core.Path.{subst}
use vkage.Base.Text.Parts.{IsPart, split-part, split-last}
use vkage.Config.Names.{name_rest, name_re, check_name}
use vkage.Config.Devices.{Entry, known_type}
use vkage.Config.Devices.Laws.{IsValid}
use vkage.Run.Launch.{log_dir, log_path, export_arg, device_arg, device_options}

-- No comma.
abbrev IsPlain : Bytes → Type 0
IsPlain s = IsPart b',' s

name_rest-IsPlain : (s : Bytes) → name_rest s ≡ true → IsPlain s
unfolding name_rest
name_rest-IsPlain [] h = tt
name_rest-IsPlain (b ∷ s) h = (ground arith, name_rest-IsPlain s (ground arith))

name_re-IsPlain : (s : Bytes) → name_re s ≡ true → IsPlain s
unfolding name_re
name_re-IsPlain [] h = tt
name_re-IsPlain (b ∷ s) h = (ground arith, name_rest-IsPlain s (ground arith))

check_name-IsPlain : (s : Bytes) → check_name s ≡ true → IsPlain s
unfolding check_name
check_name-IsPlain s h = name_re-IsPlain s (ground arith)

known_type-IsPlain : (s : Bytes) → known_type s ≡ true → IsPlain s
unfolding known_type
known_type-IsPlain s h = elim (Bool-cases (str_eq s (codes "wlan"))) [
  | inl w ↦
      subst IsPlain (sym ((str_eq_iff s (codes "wlan")).0 w)) (refl, (refl, (refl, (refl, tt))))
  | inr n ↦
      subst IsPlain (sym ((str_eq_iff s (codes "net")).0 (ground arith))) (refl, (refl, (refl, tt)))
]

log_path-IsPlain : (name : Bytes) → IsPlain name → IsPlain (codes "log=" ++ log_path name)
unfolding log_path log_dir
log_path-IsPlain name h =
    let P : ℕ → Type 0 = λ b. (b == b',') ≡ false in
    All-append P (codes "log=/run/invirtio/" ++ name) (codes "/inflight")
      (All-append P (codes "log=/run/invirtio/") name (search) h) (search)

-- For a valid entry of the configuration the launcher's -e has exactly three parts between its commas:
-- the type, the name and the log.
pub split-export_arg :
    (e : Entry)
    → IsValid e
    → split (export_arg e.name e.device) b','
      ≡ e.device.typ ∷ e.name ∷ (codes "log=" ++ log_path e.name) ∷ []
unfolding export_arg
split-export_arg e v =
    let name = check_name-IsPlain e.name v.named in
    split-part b',' e.device.typ (e.name ++ (b',' ∷ (codes "log=" ++ log_path e.name)))
      (known_type-IsPlain e.device.typ v.typed)
    ∙ ap (◌∷◌ e.device.typ) (
        split-part b',' e.name (codes "log=" ++ log_path e.name) name
        ∙ ap (◌∷◌ e.name)
            (split-last b',' (codes "log=" ++ log_path e.name) (log_path-IsPlain e.name name)))

options_split :
    (os : List Bytes) (s : Bytes)
    → IsPlain s
    → All IsPlain os
    → split (s ++ device_options os) b',' ≡ s ∷ os
unfolding device_options
options_split [] s h hs = rw append-nil (split-last b',' s h)
options_split (o ∷ os) s h (ho, hs) =
    split-part b',' s (o ++ device_options os) h ∙ ap (◌∷◌ s) (options_split os o ho hs)

-- For a valid entry whose options have no commas, the guest's vduse_guest.device= has the type, the
-- name and then each option between its commas, empty options among them.
pub split-device_arg :
    (e : Entry)
    → IsValid e
    → All (IsPart b',') e.device.options
    → split (device_arg e.name e.device) b',' ≡ e.device.typ ∷ e.name ∷ e.device.options
unfolding device_arg
split-device_arg e v h =
    split-part b',' e.device.typ (e.name ++ device_options e.device.options)
      (known_type-IsPlain e.device.typ v.typed)
    ∙ ap (◌∷◌ e.device.typ)
        (options_split e.device.options e.name (check_name-IsPlain e.name v.named) h)
