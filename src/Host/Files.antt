-- ===== src/Host/Files.antt =====
-- What the kernel documents of the operations on files, as far as the tools rely on it.
use vkage.Base.{ℕ, ◌≡◌, ◌≢◌, true, none, some, Bytes}
use vkage.Host.{Host, missing}

-- Each operation changes at most the files that it names. A rename moves a file in one step, or
-- fails and leaves both.
pub record FileLaws (h : Host) : Type 0 where
  pub write_elsewhere :
      (p q c : Bytes) (m : ℕ) (w : h.World)
      → q ≢ p
      → h.content q (h.write_file p c m w).1 ≡ h.content q w
  pub write_done :
      (p c : Bytes) (m : ℕ) (w : h.World)
      → (h.write_file p c m w).0 ≡ none
      → h.content p (h.write_file p c m w).1 ≡ some c
  pub chmod_content :
      (p q : Bytes) (m : ℕ) (w : h.World) → h.content q (h.chmod p m w).1 ≡ h.content q w
  pub rename_done :
      (p q : Bytes) (w : h.World)
      → (h.rename p q w).0 ≡ none
      → h.content q (h.rename p q w).1 ≡ h.content p w
  pub rename_failed :
      (p q : Bytes) (e : h.Fault) (w : h.World)
      → (h.rename p q w).0 ≡ some e
      → h.content q (h.rename p q w).1 ≡ h.content q w
  pub rename_elsewhere :
      (p q r : Bytes) (w : h.World) → r ≢ p → r ≢ q → h.content r (h.rename p q w).1 ≡ h.content r w
  pub remove_elsewhere :
      (p q : Bytes) (w : h.World) → q ≢ p → h.content q (h.remove p w).1 ≡ h.content q w
  pub remove_done :
      (p : Bytes) (w : h.World) → (h.remove p w).0 ≡ none → h.content p (h.remove p w).1 ≡ none
  pub remove_missing :
      (p : Bytes) (w : h.World)
      → (h.remove p w).0 ≡ some missing
      → h.content p (h.remove p w).1 ≡ none
  pub create_elsewhere :
      (p q : Bytes) (m : ℕ) (w : h.World) → q ≢ p → h.content q (h.create p m w).1 ≡ h.content q w
  pub copy_elsewhere :
      (s p q : Bytes) (w : h.World) → q ≢ p → h.content q (h.copy_data s p w).1 ≡ h.content q w
  pub copy_done :
      (s p : Bytes) (w : h.World)
      → (h.copy_data s p w).0 ≡ none
      → h.content p (h.copy_data s p w).1 ≡ h.content s w
  pub close_content : (p q : Bytes) (w : h.World) → h.content q (h.close p w).1 ≡ h.content q w
  pub same_content :
      (p q : Bytes) (w : h.World) → h.same_file p q w ≡ true → h.content p w ≡ h.content q w
  pub mkdir_content :
      (d q : Bytes) (m : ℕ) (w : h.World) → h.content q (h.mkdir_all d m w).1 ≡ h.content q w
