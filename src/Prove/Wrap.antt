-- ===== src/Prove/Wrap.antt =====
-- The host facade `circuits/wrap-v1/src/lib.rs`, with errors of its own.
use arm_multisig_application.Base.{Outcome, ◌>>=◌}
use arm_multisig_application.Platform.{Platform}
use arm_multisig_application.Prove.{Prover, map_err}
use arm_multisig_application.Witness.{
  WrapBranchWitness, WrapInflowWitness, WrapOutflowWitness, inflow, outflow,
}
use Prim.Native.String.{String}

-- `ProveError`
pub data ProveError : Type 0 where
  env prove : String → ProveError

unfoldable pub prove_branch :
    (p : Platform) (r : Prover (WrapBranchWitness p))
    → WrapBranchWitness p
    → r.Opts
    → Outcome ProveError r.Receipt
prove_branch p r branch opts = do
  builder ← map_err (r.write branch) env
  environment ← map_err (r.build builder) env
  map_err (r.prove_with_ctx environment opts) prove

module _ (p : Platform) (r : Prover (WrapBranchWitness p)) where
  unfoldable pub prove_inflow : WrapInflowWitness p → r.Opts → Outcome ProveError r.Receipt
  prove_inflow witness opts = prove_branch p r (inflow witness) opts

  unfoldable pub prove_outflow : WrapOutflowWitness p → r.Opts → Outcome ProveError r.Receipt
  prove_outflow witness opts = prove_branch p r (outflow witness) opts
