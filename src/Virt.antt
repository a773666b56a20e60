-- ===== src/Virt.antt =====
-- Backends of virtwho/virt: how what they are told becomes hypervisors and guests.
pub mod Kubevirt
pub mod Fakevirt
pub mod Esx
pub mod Ahv
mod Tests
