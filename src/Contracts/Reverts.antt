-- ===== src/Contracts/Reverts.antt =====
-- What the forwarders do with any call: when they execute it, and why they revert.
pub mod Transfers
pub mod Deposits
