-- ===== src/Lib.antt =====
-- The multisig application of the Anoma resource machine: vaults that K of N keys spend from.
--
-- A vault is a label preimage (token, N, K, root of the keys, salt); vault notes are resources whose
-- label reference is its hash. Two RISC Zero guests, `multisig_v1` and `wrap_v1`, read a private
-- witness, check it by one of four functions of
-- `coordinator/crates/multisig-core/src/constrain.rs`, and commit to a journal, the bytes of a logic
-- instance. On the chain, forwarder contracts execute the external calls that a journal names.
--
-- Files and the code they model (paths below `coordinator/crates/multisig-core/src/` unless given):
--   Base, Base/*           `Result` with panics (`Outcome`), byte strings and their order,
--                          fixed-width integers as bytes, lists over native numbers
--   Platform               the libraries: sha2, risc0_zkvm's `Digest`, anoma_rm_risc0's resources
--                          and nullifier keys, k256
--   Machine                `usize`, `as`, `checked_add`, slices and indices
--   Journal                journal.rs: `encode`, `digest`, `estimate_size`; Journal/Layout and
--                          Journal/Injective are about it
--   Label                  label.rs: `LabelPreimage::new`, `encode`, `label_ref`, the nullifier key;
--                          Label/Layout, Label/New and Label/Refusal are about it
--   Constants              constants.rs
--   Sig, Spend             sig.rs and spend.rs: one signature, and the message that is signed;
--                          Spend/Message, Spend/Injective and Spend/Multiset are about it
--   Witness                witness.rs: the four witnesses
--   Abi                    constrain.rs from line 421: `read_uint256`, `read_bytes` and the three
--                          parsers; the files of Abi/ are about them, Abi/Exact has the parsers without
--                          machine integers to compare with
--   Constrain/Errors       constrain.rs: `CircuitError` and shared helpers
--   Constrain/Consumed     `constrain_multisig_consumed`, one definition for each group of its
--                          numbered steps; Constrain/Consumed/Spec says what an accepted spend is,
--                          Constrain/Consumed/Returns and Constrain/Consumed/Total are about panics,
--                          Constrain/Consumed/Refusal says what a refused one is,
--                          Constrain/Consumed/Builds is about 32-bit and 64-bit builds
--   Constrain/Created      `constrain_multisig_created`
--   Constrain/Wrap         `constrain_wrap_inflow`, `constrain_wrap_outflow`; the files named Refusal are
--                          about errors, Constrain/Returns about panics, Constrain/Decides about both
--   Guest                  `main` of circuits/multisig-v1/methods/guest and of
--                          circuits/wrap-v1/methods/guest; Guest/Journals is about what they commit to,
--                          Guest/Aborts about when they abort
--   Fixtures, Fixtures/Signer, Fixtures/Vault
--                          host/src/fixtures.rs: the encoded calls, the signing of a witness, test
--                          vaults and two of the builders, Fixtures/Hybrid the third; the other
--                          files of Fixtures/ are about them and the circuit
--   Prove, Prove/Wrap      circuits/multisig-v1/src/lib.rs and circuits/wrap-v1/src/lib.rs, over a
--                          prover; Prove/Receipts is about what a receipt says
--   Contracts/Decode       Solidity's `abi.decode`, in `forwardCall` of
--                          contracts/src/MultisigForwarder.sol and contracts/src/WrapForwarder.sol
--                          and on a whole external call; its child modules compare it with Abi
--                          and with what the host encodes
--   Contracts/Erc20        the token contracts, a parameter
--   Contracts/Forwarder    both contracts; Contracts/Agreement, Contracts/RoundTrip and
--                          Contracts/Settlement are about what they do for a circuit's calls,
--                          Contracts/Outflow about the payload of a withdrawal's ephemeral resource,
--                          Contracts/Reverts about any call and its reverts,
--                          Contracts/Withdrawal about the host's withdrawals from end to end
--   Contracts/LogicJournal contracts/src/libs/LogicJournal.sol, with its bit operations (Base/Bits)
--   Examples, Examples/*   a platform to compute with, runs of the code on it, and instances
--
-- A function that returns `Result<T, E>` or `Option<T>` is a function into `Outcome`, with `err` for
-- `Err` and `None` and with `panic` for `expect`, an index out of range, a bad slice and a checked
-- overflow. Loops are recursion on the list they walk, with the variables they change as arguments.
-- There is no fuel. A guard keeps its place among the guards, so which error is returned is the
-- code's.
--
-- Bounds: bytes and integers are natural numbers. `u128` sums go through `checked_add` at 2 ^ 128,
-- `usize` is 2 ^ 32 in the guest and 2 ^ 64 on the host (`Build`), `as usize` is a remainder, a
-- plain `+` panics or wraps as the build says, and lengths in a journal are `u32` or panic. A list's
-- own length is not bounded. Where a type of the source bounds a value (`[u8; 32]`, `u128`) and a
-- theorem needs it, it is a hypothesis.
--
-- The libraries are fields of `Platform`: SHA-256 is a function from bytes to bytes, a hasher is the
-- bytes that it was updated with, and nothing is said of commitments, nullifiers or signatures.
-- `IsLawful` has the 32 bytes of a digest and that the equality tests decide equality.
-- `NoCollision` speaks of two byte strings that a theorem names. `Vec::sort` is an insertion sort:
-- sorted byte strings in strict total order leave only one result.
--
-- `Signer` is k256's signing half, `Host` what is made of bytes, `Prover` the prover, each with a
-- record of the behaviour that its library documents.
--
-- On the chain, `Erc20` is the tokens behind OpenZeppelin's SafeERC20, with EIP-20's transfers as
-- `IsStandard`. The protocol adapter is not part of the repository. `Runs` has what `SPEC.md` says of
-- it: it decodes each blob of a payload as `abi.encode(forwarder, input, expected)` (`decode_call`, not
-- the circuit's parser), calls the forwarder with the carrier's logic reference, in order, and
-- goes on only where the call returns the expected output. What other contracts do for a call is a
-- parameter, a relation (`Others`); `Spares` is the hypothesis that their calls do not lower the
-- multisig forwarder's balance, which grants no allowance.
--
-- Not modelled: serialisation of witnesses and the prover (libraries), build scripts, and
-- tests.
pub mod Base
pub mod Platform
pub mod Journal
pub mod Label
pub mod Sig
pub mod Spend
pub mod Machine
pub mod Abi
pub mod Contracts
pub mod Fixtures
pub mod Guest
pub mod Prove
pub mod Witness
pub mod Constants
pub mod Constrain
mod Examples
