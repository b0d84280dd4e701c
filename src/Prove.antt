-- ===== src/Prove.antt =====
-- The host facade `circuits/multisig-v1/src/lib.rs`, over the RISC Zero prover.
pub mod Wrap
pub mod Receipts
use arm_multisig_application.Base.{◌≡◌, Outcome, ok, err, panic, ◌>>=◌}
use arm_multisig_application.Base.Bytes.{Bytes}
use arm_multisig_application.Platform.{Platform}
use arm_multisig_application.Witness.{
  MultisigBranchWitness, MultisigConsumedWitness, MultisigCreatedWitness, consumed, created,
}
use Prim.Native.String.{String}

-- `ProveError`
pub data ProveError : Type 0 where
  env prove : String → ProveError

-- `risc0_zkvm` as the facades use it for one guest, whose witness type is `Branch`: an environment
-- builder that a witness is written to, the environment, and the default prover.
pub record Prover (Branch : Type 0) : Type 1 where
  pub Builder : Type 0
  pub Env : Type 0
  pub Opts : Type 0
  pub Receipt : Type 0
  pub journal : Receipt → Bytes
  pub write : Branch → Outcome String Builder
  pub build : Builder → Outcome String Env
  pub prove_with_ctx : Env → Opts → Outcome String Receipt

-- `.map_err(|e| f(e.to_string()))`
abbrev pub map_err : {E A : Type 0} → Outcome String A → (String → E) → Outcome E A
map_err (ok a) f = ok a
map_err (err e) f = err (f e)
map_err panic f = panic

unfoldable pub prove_branch :
    (p : Platform) (r : Prover (MultisigBranchWitness p))
    → MultisigBranchWitness p
    → r.Opts
    → Outcome ProveError r.Receipt
prove_branch p r branch opts = do
  builder ← map_err (r.write branch) env
  environment ← map_err (r.build builder) env
  map_err (r.prove_with_ctx environment opts) prove

module _ (p : Platform) (r : Prover (MultisigBranchWitness p)) where
  unfoldable pub prove_consumed : MultisigConsumedWitness p → r.Opts → Outcome ProveError r.Receipt
  prove_consumed witness opts = prove_branch p r (consumed witness) opts

  unfoldable pub prove_created : MultisigCreatedWitness p → r.Opts → Outcome ProveError r.Receipt
  prove_created witness opts = prove_branch p r (created witness) opts
