-- ===== src/Examples/Receipts.antt =====
-- A prover that only runs the guest, and receipts of it.
use arm_multisig_application.Base.{◌≡◌, refl, Outcome, ok, err, panic}
use arm_multisig_application.Base.Bytes.{Bytes}
use arm_multisig_application.Constrain.Consumed.Spec.{Authorized}
use arm_multisig_application.Constrain.Wrap.Refinement.{Paired, Deposit, Nullified}
use arm_multisig_application.Examples.Toy.{toy, toy-IsLawful}
use arm_multisig_application.Examples.Consumed.{spend, spend_accepted, build, journal}
use arm_multisig_application.Examples.Notes.{deposit, deposit_accepted, deposit_journal}
use arm_multisig_application.Guest.{multisig_main, wrap_main, multisig_forwarder, wrap_forwarder}
use arm_multisig_application.Prove.{Prover, prove_branch, prove_consumed}
use arm_multisig_application.Prove.Wrap
use arm_multisig_application.Prove.Wrap.{prove_inflow}
use arm_multisig_application.Prove.Receipts.{
  RunsGuest, prove_consumed-Authorized, prove_inflow-Deposit,
}
use Prim.Native.String.{String}

abbrev run : Outcome (Unit {0}) Bytes → Outcome String Bytes
run (ok journal) = ok journal
run (err e) = err "guest"
run panic = err "guest panicked"

abbrev runner : {Branch : Type 0} → (Branch → Outcome (Unit {0}) Bytes) → Prover Branch
runner {Branch} main = record {
  Builder = Branch;
  Env = Branch;
  Opts = Unit {0};
  Receipt = Bytes;
  journal = λ receipt. receipt;
  write = λ w. ok w;
  build = λ builder. ok builder;
  prove_with_ctx = λ environment opts. run (main environment);
}

run-eq-ok : (m : Outcome (Unit {0}) Bytes) (bs : Bytes) → run m ≡ ok bs → m ≡ ok bs
run-eq-ok (ok x) bs h = cc h
run-eq-ok (err e) bs h = cc h
run-eq-ok panic bs h = cc h

runner-RunsGuest :
    {Branch : Type 0} (main : Branch → Outcome (Unit {0}) Bytes) → RunsGuest (runner main) main
runner-RunsGuest main = record {
  holds = λ environment. environment;
  holds-build = λ w builder environment h k. cc (h, k);
  committed = λ environment opts receipt h. run-eq-ok (main environment) receipt h;
}

spend_proved : prove_consumed toy (runner (multisig_main toy build)) spend tt ≡ ok journal
unfolding prove_consumed prove_branch multisig_main
spend_proved = rw spend_accepted refl

deposit_proved : prove_inflow toy (runner (wrap_main toy build)) deposit tt ≡ ok deposit_journal
unfolding prove_inflow Wrap.prove_branch wrap_main
deposit_proved = rw deposit_accepted refl

prove_consumed-Authorized_example : Authorized toy build spend multisig_forwarder journal
prove_consumed-Authorized_example =
    prove_consumed-Authorized toy build toy-IsLawful (runner (multisig_main toy build)) spend tt
      (runner-RunsGuest (multisig_main toy build)) spend_proved

prove_inflow-Deposit_example :
    Paired toy deposit
    × (Deposit toy build deposit wrap_forwarder × Nullified toy deposit deposit_journal)
prove_inflow-Deposit_example =
    prove_inflow-Deposit toy build toy-IsLawful (runner (wrap_main toy build)) deposit tt
      (runner-RunsGuest (wrap_main toy build)) deposit_proved
