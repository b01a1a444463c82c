-- ===== src/Pci/Tests.antt =====
-- Runs of the functions on PCI addresses and drivers, on inputs of invirtio_test.go and others, and
-- instances of their theorems.
use vkage.Base.{
  ℕ, ◌≡◌, ◌↔◌, ◌⊎◌, List, All, refl, inl, inr, true, [], ◌∷◌, ◌++◌, none, some, Bytes, codes, arith,
  count, str_eq, has_prefix, if◌then◌else◌,
}
use vkage.Pci.Address.{
  bus_pattern, matches, valid_address, normalize_address, Peer, check_peers, shares_group,
  class_type,
}
use vkage.Pci.Address.Laws.{normalize_address_idem, check_peers_iff, normalize_address_bus}
use vkage.Pci.Bind.{PciHost, vfio_pci, bind_vfio, bind_native}
use vkage.Pci.Bind.Laws.{PciLaws, IsMoved, bind_vfio-IsMoved, bind_vfio_ok}

normalized :
    (normalize_address (codes "06:00.0") ≡ some (codes "0000:06:00.0"))
    × (normalize_address (codes "0000:0A:00.0") ≡ some (codes "0000:0a:00.0"))
    × (normalize_address (codes "06:00.8") ≡ none)
    × (normalize_address (codes "wlan0") ≡ none)
unfolding normalize_address count
normalized = (refl, refl, refl, refl)

normalize_address_idem_instance :
    (valid_address (codes "0000:0a:00.0") ≡ true)
    × (normalize_address (codes "0000:0a:00.0") ≡ some (codes "0000:0a:00.0"))
normalize_address_idem_instance =
    normalize_address_idem (codes "0000:0A:00.0") (codes "0000:0a:00.0") normalized.1

short : matches bus_pattern (codes "06:00.0") ≡ true
unfolding matches
short = refl

short_normalized : normalize_address (codes "06:00.0") ≡ some (codes "0000:" ++ codes "06:00.0")
short_normalized = normalize_address_bus (codes "06:00.0") short

classes :
    (class_type (codes "0x028000") ≡ codes "wlan")
    × (class_type (codes "0x020000") ≡ codes "net")
    × (class_type (codes "0x010802") ≡ [])
unfolding class_type has_prefix
classes = (refl, refl, refl)

-- A device with a driver and an override.
pub record Bound : Type 0 where
  pub drv : Bytes
  pub overriding : Bytes

-- The host of a device, in which a probe goes by the override.
abbrev host : PciHost
host = record {
  World = Bound;
  Fault = ℕ;
  driver = λ w. w.drv;
  load_vfio = λ w. (none, w);
  write_override = λ v w. (none, record w { overriding = v });
  unbind = λ w. (none, record w { drv = [] });
  probe = λ w. (
    none,
    if str_eq w.overriding vfio_pci
        then record w { drv = vfio_pci }
        else record w { drv = codes "ath" },
  );
}

abbrev host_laws : PciLaws host
unfolding str_eq
host_laws = record {
  override = λ w. w.overriding;
  load_driver = λ w. inl refl;
  override_driver = λ v w. refl;
  override_written = λ v w e. refl;
  unbind_driver = λ w. inr refl;
  unbind_override = λ w. refl;
  probe_override = λ w. ground arith;
  probe_driver = λ w e. inr (rw e refl);
}

abbrev native : Bound
native = record { drv = codes "ath"; overriding = [] }

bound : bind_vfio host native ≡ (none, record { drv = vfio_pci; overriding = vfio_pci })
unfolding bind_vfio str_eq
bound = refl

back :
    bind_native host (bind_vfio host native).1
    ≡ (none, record { drv = codes "ath"; overriding = b'\n' ∷ [] })
unfolding bind_vfio bind_native str_eq
back = refl

bind_vfio-IsMoved_example : IsMoved host host_laws (codes "ath") (bind_vfio host native).1
bind_vfio-IsMoved_example = bind_vfio-IsMoved host host_laws native

bound_ok : (bind_vfio host native).0 ≡ none
unfolding bind_vfio str_eq
bound_ok = refl

bound_stays :
    ((bind_vfio host native).1.drv ≡ vfio_pci)
    × (bind_vfio host (bind_vfio host native).1 ≡ (none, (bind_vfio host native).1))
bound_stays = bind_vfio_ok host native bound_ok

abbrev peers : List Peer
peers =
    record { name = codes "0000:06:00.0"; driver = codes "ath" }
    ∷ record { name = codes "0000:06:00.1"; driver = [] }
    ∷ []

check_peers_iff_instance :
    (check_peers (codes "0000:06:00.0") peers ≡ none)
    ↔ All (λ (p : Peer). (p.name ≡ codes "0000:06:00.0") ⊎ (shares_group p.driver ≡ true)) peers
check_peers_iff_instance = check_peers_iff (codes "0000:06:00.0") peers
