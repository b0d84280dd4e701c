-- ===== src/Prove/Receipts.antt =====
-- What a receipt of the facades says, with a prover that runs the guest.
use arm_multisig_application.Base.{◌≡◌, Outcome, ok, err, panic, ◌>>=◌, >>=-eq-ok}
use arm_multisig_application.Base.Bytes.{Bytes}
use arm_multisig_application.Constrain.Consumed.Spec.{Authorized}
use arm_multisig_application.Constrain.Consumed.Refinement.{constrain_sound}
use arm_multisig_application.Constrain.Created.Refinement.{
  Admitted, constrain_multisig_created-Admitted,
}
use arm_multisig_application.Constrain.Wrap.Refinement.{Paired, Deposit, Nullified, Ephemeral}
use arm_multisig_application.Guest.{multisig_main, wrap_main, multisig_forwarder, wrap_forwarder}
use arm_multisig_application.Guest.Journals.{wrap_main-WrapCommits, expect-eq-ok}
use arm_multisig_application.Machine.{Build}
use arm_multisig_application.Platform.{Platform, IsLawful}
use arm_multisig_application.Prove.{
  ProveError, Prover, map_err, prove_branch, prove_consumed, prove_created,
}
use arm_multisig_application.Prove.Wrap
use arm_multisig_application.Prove.Wrap.{prove_inflow, prove_outflow}
use arm_multisig_application.Witness.{
  MultisigBranchWitness, MultisigConsumedWitness, MultisigCreatedWitness, consumed, created,
  WrapBranchWitness, WrapInflowWitness, WrapOutflowWitness, inflow, outflow,
}
use Prim.Native.String.{String}

-- What RISC Zero documents of the prover, for a guest that runs as `main`: an environment holds the
-- witness that was written, and a receipt's journal is what the guest committed to on it.
pub record RunsGuest {Branch : Type 0} (r : Prover Branch)
    (main : Branch → Outcome (Unit {0}) Bytes) : Type 0 where
  pub holds : r.Env → Branch
  pub holds-build :
      (w : Branch) (builder : r.Builder) (environment : r.Env)
      → r.write w ≡ ok builder
      → r.build builder ≡ ok environment
      → holds environment ≡ w
  pub committed :
      (environment : r.Env) (opts : r.Opts) (receipt : r.Receipt)
      → r.prove_with_ctx environment opts ≡ ok receipt
      → main (holds environment) ≡ ok (r.journal receipt)

map_err-eq-ok :
    {E A : Type 0} (m : Outcome String A) (f : String → E) {a : A} → map_err m f ≡ ok a → m ≡ ok a
map_err-eq-ok (ok x) f h = cc
map_err-eq-ok (err e) f h = cc
map_err-eq-ok panic f h = cc

-- The calls that both facades make, with the errors `f` and `g`.
prove-journal :
    {E Branch : Type 0} (f g : String → E) (r : Prover Branch)
    (main : Branch → Outcome (Unit {0}) Bytes)
    → RunsGuest r main
    → (w : Branch) (opts : r.Opts) {receipt : r.Receipt}
    → (do
      builder ← map_err (r.write w) f
      environment ← map_err (r.build builder) f
      map_err (r.prove_with_ctx environment opts) g)
      ≡ ok receipt
    → main w ≡ ok (r.journal receipt)
prove-journal f g r main runs w opts {receipt} h =
    let (builder, written, h₁) = >>=-eq-ok (map_err (r.write w) f) _ h in
    let (environment, built, h₂) = >>=-eq-ok (map_err (r.build builder) f) _ h₁ in
    let holds =
      runs.holds-build w builder environment (map_err-eq-ok _ f written)
        (map_err-eq-ok _ f built) in
    rw (← holds) (runs.committed environment opts receipt (map_err-eq-ok _ g h₂))

-- A receipt for a witness has the journal that the guest commits to on that witness.
prove_branch-journal :
    (p : Platform) (r : Prover (MultisigBranchWitness p))
    (main : MultisigBranchWitness p → Outcome (Unit {0}) Bytes)
    → RunsGuest r main
    → (w : MultisigBranchWitness p) (opts : r.Opts) {receipt : r.Receipt}
    → prove_branch p r w opts ≡ ok receipt
    → main w ≡ ok (r.journal receipt)
unfolding prove_branch
prove_branch-journal p r main runs w opts h =
    prove-journal ProveError.env ProveError.prove r main runs w opts h

prove_wrap_branch-journal :
    (p : Platform) (r : Prover (WrapBranchWitness p))
    (main : WrapBranchWitness p → Outcome (Unit {0}) Bytes)
    → RunsGuest r main
    → (w : WrapBranchWitness p) (opts : r.Opts) {receipt : r.Receipt}
    → Wrap.prove_branch p r w opts ≡ ok receipt
    → main w ≡ ok (r.journal receipt)
unfolding Wrap.prove_branch
prove_wrap_branch-journal p r main runs w opts h =
    prove-journal Wrap.ProveError.env Wrap.ProveError.prove r main runs w opts h

module _ (p : Platform) (b : Build) (law : IsLawful p) where
  -- A receipt of `prove_consumed`, from a prover that runs the multisig guest, has the journal of
  -- an authorized spend with the pinned forwarder.
  pub prove_consumed-Authorized :
      (r : Prover (MultisigBranchWitness p)) (w : MultisigConsumedWitness p) (opts : r.Opts)
      {receipt : r.Receipt}
      → RunsGuest r (multisig_main p b)
      → prove_consumed p r w opts ≡ ok receipt
      → Authorized p b w multisig_forwarder (r.journal receipt)
  unfolding prove_consumed multisig_main
  prove_consumed-Authorized r w opts {receipt} runs h =
      let run = prove_branch-journal p r (multisig_main p b) runs (consumed w) opts h in
      constrain_sound p law b w multisig_forwarder ((expect-eq-ok _ (r.journal receipt)).0 run)

  -- A receipt of `prove_created`, from a prover that runs the multisig guest, has the journal of an
  -- admitted note.
  pub prove_created-Admitted :
      (r : Prover (MultisigBranchWitness p)) (w : MultisigCreatedWitness p) (opts : r.Opts)
      {receipt : r.Receipt}
      → RunsGuest r (multisig_main p b)
      → prove_created p r w opts ≡ ok receipt
      → Admitted p w (r.journal receipt)
  unfolding prove_created multisig_main
  prove_created-Admitted r w opts {receipt} runs h =
      let run = prove_branch-journal p r (multisig_main p b) runs (created w) opts h in
      (constrain_multisig_created-Admitted p w (r.journal receipt)).0
        ((expect-eq-ok _ (r.journal receipt)).0 run)

  -- A receipt of `prove_inflow`, from a prover that runs the wrap guest, has the journal of a
  -- consumed resource that is paired with a vault, and its witness is a deposit through the pinned
  -- forwarder.
  pub prove_inflow-Deposit :
      (r : Prover (WrapBranchWitness p)) (w : WrapInflowWitness p) (opts : r.Opts)
      {receipt : r.Receipt}
      → RunsGuest r (wrap_main p b)
      → prove_inflow p r w opts ≡ ok receipt
      → Paired p w × (Deposit p b w wrap_forwarder × Nullified p w (r.journal receipt))
  unfolding prove_inflow
  prove_inflow-Deposit r w opts {receipt} runs h =
      (wrap_main-WrapCommits p b (inflow w) (r.journal receipt) law).0
        (prove_wrap_branch-journal p r (wrap_main p b) runs (inflow w) opts h)

  -- A receipt of `prove_outflow`, from a prover that runs the wrap guest, has the journal of a
  -- created ephemeral resource with the vault's label.
  pub prove_outflow-Ephemeral :
      (r : Prover (WrapBranchWitness p)) (w : WrapOutflowWitness p) (opts : r.Opts)
      {receipt : r.Receipt}
      → RunsGuest r (wrap_main p b)
      → prove_outflow p r w opts ≡ ok receipt
      → Ephemeral p w (r.journal receipt)
  unfolding prove_outflow
  prove_outflow-Ephemeral r w opts {receipt} runs h =
      (wrap_main-WrapCommits p b (outflow w) (r.journal receipt) law).0
        (prove_wrap_branch-journal p r (wrap_main p b) runs (outflow w) opts h)
