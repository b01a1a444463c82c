-- ===== src/Pci/InUse/Laws.antt =====
-- `InUse` names whatever holds a disk.
use vkage.Base.{◌≡◌, ◌≢◌, refl, inl, inr, Bool-cases, true, List, [], ◌∷◌, ◌++◌, Bytes, split}
use vkage.Report.Memory.{fields}
use vkage.Pci.InUse.{
  Block, BlockReads, is_part, mount_line, mounts, swaps, behind, block_uses, uses_of, in_use,
}

-- Something of a list.
pub data Among {ℓ} {A : Type ℓ} (x : A) : List A → Type ℓ where
  first : (xs : List A) → Among x (x ∷ xs)
  later : (y : A) (xs : List A) → Among x xs → Among x (y ∷ xs)

-- A disk that holds a mount, or active swap.
pub data Holds (r : BlockReads) (name : Bytes) : Type 0 where
  mounted :
      (line dev at : Bytes)
      → Among line (split (r.lsblk name) b'\n')
      → fields line ≡ dev ∷ at ∷ []
      → Holds r name
  swapped : (s : Bytes) → Among s (fields r.swapon) → is_part name s ≡ true → Holds r name

append-filled : (xs ys : List Bytes) → ys ≢ [] → xs ++ ys ≢ []
append-filled [] ys h e = h e
append-filled (x ∷ xs) ys h e = absurd (cc e)

filled-append : (xs ys : List Bytes) → xs ≢ [] → xs ++ ys ≢ []
filled-append [] ys h e = h refl
filled-append (x ∷ xs) ys h e = absurd (cc e)

mount_line-filled : (fs uses : List Bytes) → uses ≢ [] → mount_line fs uses ≢ []
unfolding mount_line
mount_line-filled [] uses h = h
mount_line-filled (a ∷ []) uses h = h
mount_line-filled (a ∷ b ∷ []) uses h = λ e. absurd (cc e)
mount_line-filled (a ∷ b ∷ c ∷ fs) uses h = h

mounts-filled :
    (line dev at : Bytes) (ls : List Bytes)
    → Among line ls
    → fields line ≡ dev ∷ at ∷ []
    → mounts ls ≢ []
unfolding mounts mount_line
mounts-filled line dev at _ (first ls) e = rw e (λ e. absurd (cc e))
mounts-filled line dev at _ (later l ls m) e =
    mount_line-filled (fields l) (mounts ls) (mounts-filled line dev at ls m e)

swaps-filled :
    (name s : Bytes) (ss : List Bytes) → Among s ss → is_part name s ≡ true → swaps name ss ≢ []
unfolding swaps
swaps-filled name s _ (first ss) e = rw e (λ e. absurd (cc e))
swaps-filled name s _ (later t ss m) e = elim (Bool-cases (is_part name t)) [
  | inl part ↦ rw part (λ e. absurd (cc e))
  | inr other ↦ rw other (swaps-filled name s ss m e)
]

block_uses-filled : (r : BlockReads) (name : Bytes) → Holds r name → block_uses r name ≢ []
unfolding block_uses
block_uses-filled r name (mounted line dev at m e) =
    filled-append (mounts (split (r.lsblk name) b'\n')) (swaps name (fields r.swapon))
      (mounts-filled line dev at (split (r.lsblk name) b'\n') m e)
block_uses-filled r name (swapped s m e) =
    append-filled (mounts (split (r.lsblk name) b'\n')) (swaps name (fields r.swapon))
      (swaps-filled name s (fields r.swapon) m e)

uses_of-filled :
    (r : BlockReads) (addr : Bytes) (b : Block) (bs : List Block)
    → Among b bs
    → behind addr b.device ≡ true
    → Holds r b.name
    → uses_of r addr bs ≢ []
unfolding uses_of
uses_of-filled r addr b _ (first bs) e h =
    rw e (filled-append (block_uses r b.name) (uses_of r addr bs) (block_uses-filled r b.name h))
uses_of-filled r addr b _ (later c bs m) e h = elim (Bool-cases (behind addr c.device)) [
  | inl here ↦
      rw here
        (append-filled (block_uses r c.name) (uses_of r addr bs) (uses_of-filled r addr b bs m e h))
  | inr elsewhere ↦ rw elsewhere (uses_of-filled r addr b bs m e h)
]

-- A device behind which there is a disk with a mount or active swap is in use.
pub in_use-filled :
    (r : BlockReads) (addr : Bytes) (b : Block)
    → Among b r.blocks
    → behind addr b.device ≡ true
    → Holds r b.name
    → in_use r addr ≢ []
unfolding in_use
in_use-filled r addr b m e h = uses_of-filled r addr b r.blocks m e h
