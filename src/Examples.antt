-- ===== src/Examples.antt =====
-- A platform that can be computed with, concrete runs of the model on it, and each property at a
-- concrete input.
pub mod Toy
pub mod Consumed
mod Spends
mod Encodings
pub mod Notes
mod Receipts
mod Refusals
pub mod Signing
mod Builders
pub mod Tokens
pub mod Payout
mod Contracts
mod Outflow
mod Builds
mod Totals
mod Reverts
