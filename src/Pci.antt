-- ===== src/Pci.antt =====
-- tools/internal/pci/pci.go: PCI addresses, what is known of a device, and moving it between its
-- host drivers and vfio-pci.
pub mod Address
pub mod Bind
pub mod Queries
pub mod InUse
mod Tests
