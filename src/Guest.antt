-- ===== src/Guest.antt =====
-- The `main` functions of the two RISC Zero guests, `circuits/multisig-v1/methods/guest` and
-- `circuits/wrap-v1/methods/guest`: from the witness that `env::read` gives to the journal that
-- `env::commit_slice` takes.
pub mod Journals
pub mod Aborts
use arm_multisig_application.Base.{Outcome, ok, err, panic, ◌>>=◌, replicate, false}
use arm_multisig_application.Base.Bytes.{Bytes}
use arm_multisig_application.Constrain.Consumed.{constrain_multisig_consumed}
use arm_multisig_application.Constrain.Created.{constrain_multisig_created}
use arm_multisig_application.Constrain.Errors.{Circuit}
use arm_multisig_application.Constrain.Wrap.{constrain_wrap_inflow, constrain_wrap_outflow}
use arm_multisig_application.Machine.{Build}
use arm_multisig_application.Platform.{Platform}
use arm_multisig_application.Witness.{
  MultisigBranchWitness, consumed, created, WrapBranchWitness, inflow, outflow,
}

-- `MULTISIG_FORWARDER`
abbrev pub multisig_forwarder : Bytes
multisig_forwarder = replicate 20 170

-- `WRAP_FORWARDER`
abbrev pub wrap_forwarder : Bytes
wrap_forwarder = replicate 20 187

-- `.expect(…)` on a result
abbrev pub expect : {E A : Type 0} → Circuit A → Outcome E A
expect (ok a) = ok a
expect (err e) = panic
expect panic = panic

module _ {E : Type 0} (p : Platform) (b : Build) where
  -- The match of the multisig guest's `main`.
  unfoldable pub multisig_main : MultisigBranchWitness p → Outcome E Bytes
  multisig_main (consumed w) = expect (constrain_multisig_consumed p b w multisig_forwarder)
  multisig_main (created w) = expect (constrain_multisig_created p w)

  -- The match of the wrap guest's `main`.
  unfoldable pub wrap_main : WrapBranchWitness p → Outcome E Bytes
  wrap_main (inflow w) = expect (constrain_wrap_inflow p b w wrap_forwarder)
  wrap_main (outflow w) = expect (constrain_wrap_outflow p w)
