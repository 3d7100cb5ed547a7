-- ===== src/Domains.antt =====
-- domains: the packs of extra gates. Each gate is a `Gate` that the loop takes beside its own. The
-- loaders of packs from manifests are input and output.
pub mod Flags
pub mod Finops
pub mod DataEng
pub mod Secops
pub mod SupplyChain
mod Samples
