-- ===== src/Constrain.antt =====
-- `constrain.rs` of multisig-core: what each circuit branch enforces.
pub mod Errors
pub mod Consumed
pub mod Created
pub mod Wrap
pub mod Returns
pub mod Decides
