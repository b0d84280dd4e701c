-- ===== src/Constrain/Wrap/Quantity.antt =====
-- The inflow's own quantity in `constrain_wrap_inflow`.
use arm_multisig_application.Base.{ℕ, ◌≡◌, refl, true, some, ok}
use arm_multisig_application.Base.Bytes.{Bytes}
use arm_multisig_application.Constrain.Wrap.{constrain_wrap_inflow}
use arm_multisig_application.Constrain.Wrap.Refinement.{
  Paired, Deposit, Nullified, constrain_wrap_inflow-Deposit,
}
use arm_multisig_application.Journal.Layout.{layout}
use arm_multisig_application.Machine.{Build}
use arm_multisig_application.Platform.{Platform, IsLawful}
use arm_multisig_application.Witness.{WrapInflowWitness}

-- The witness with another quantity of its resource.
abbrev pub with_quantity : (p : Platform) → ℕ → WrapInflowWitness p → WrapInflowWitness p
with_quantity p q w = record w { resource = record w.resource { quantity = q } }

-- On a lawful platform, an accepted deposit stays accepted whatever quantity its ephemeral resource is given, with the
-- same call and the same paired quantity, if the resource still has a nullifier; only the tag of
-- the journal changes.
pub constrain_wrap_inflow-any_quantity :
    (p : Platform) (b : Build) (w : WrapInflowWitness p) (forwarder : Bytes) (q : ℕ)
    {journal : Bytes} {nullifier : p.Digest}
    → IsLawful p
    → constrain_wrap_inflow p b w forwarder ≡ ok journal
    → p.tag (with_quantity p q w).resource true w.nf_key ≡ some nullifier
    → constrain_wrap_inflow p b (with_quantity p q w) forwarder
      ≡ ok (
          layout (record {
            tag = p.as_bytes nullifier;
            is_consumed = true;
            action_tree_root = p.as_bytes w.action_tree_root;
            app_data = w.app_data;
          }))
constrain_wrap_inflow-any_quantity p b w forwarder q {journal} {nullifier} law accepted tagged =
    let (paired, (d, n)) = (constrain_wrap_inflow-Deposit p b w forwarder journal law).0 accepted in
    let w' = with_quantity p q w in
    let paired' : Paired p w' = record {
      ephemeral = paired.ephemeral;
      nullifier_key = paired.nullifier_key;
      nk_commitment = paired.nk_commitment;
      label_ref = paired.label_ref;
    } in
    let d' : Deposit p b w' forwarder = record {
      blob = d.blob;
      only = d.only;
      parsed = d.parsed;
      call = d.call;
      to_forwarder = d.to_forwarder;
      inner = d.inner;
      input = d.input;
      op = d.op;
      token = d.token;
      amount = d.amount;
      from = d.from;
    } in
    let n' : Nullified p w' _ = record {
      nullifier = nullifier;
      tagged = tagged;
      fits = n.fits;
      journal_layout = refl;
    } in
    (constrain_wrap_inflow-Deposit p b w' forwarder _ law).1 (paired', (d', n'))
