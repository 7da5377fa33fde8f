-- ===== src/Hash.antt =====
-- The cuckoo hash tables of include/rix.
pub mod Arch
pub mod Cuckoo
pub mod KeyTable
pub mod Table64
pub mod Fingerprint
pub mod Sizing
