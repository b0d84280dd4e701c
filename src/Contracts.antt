-- ===== src/Contracts.antt =====
-- The Solidity contracts of `contracts/src`, and the circuits' acceptance together with them.
pub mod Decode
pub mod Erc20
pub mod Forwarder
pub mod Calldata
pub mod Agreement
pub mod RoundTrip
pub mod Reverts
pub mod Outflow
pub mod Withdrawal
pub mod Settlement
pub mod LogicJournal
