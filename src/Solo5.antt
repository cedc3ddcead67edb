-- ===== src/Solo5.antt =====
-- tools/scripts/solo5-muen-gencspec.py: the specification of a component, made from a Solo5 binary.
pub mod Memory
pub mod Names
pub mod Regions
pub mod Channels
pub mod Spec
pub mod Patch
pub mod Output
