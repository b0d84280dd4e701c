-- ===== src/Guest/Journals.antt =====
-- What the guests commit to.
use arm_multisig_application.Base.{◌≡◌, ◌≢◌, ◌↔◌, ◌<◌, ◌∙◌, ap, sym, ok, err, panic}
use arm_multisig_application.Base.Bytes.{Bytes}
use arm_multisig_application.Constrain.Errors.{Circuit}
use arm_multisig_application.Constrain.Consumed.{constrain_multisig_consumed}
use arm_multisig_application.Constrain.Consumed.Spec.{Authorized, instance_of}
use arm_multisig_application.Constrain.Consumed.Refinement.{
  constrain_sound, constrain_multisig_consumed-Authorized,
}
use arm_multisig_application.Constrain.Created.{constrain_multisig_created}
use arm_multisig_application.Constrain.Created.Refinement.{
  Admitted, constrain_multisig_created-Admitted,
}
use arm_multisig_application.Constrain.Wrap.{constrain_wrap_inflow, constrain_wrap_outflow}
use arm_multisig_application.Constrain.Wrap.Refinement.{
  Paired, Deposit, Nullified, Ephemeral, constrain_wrap_inflow-Deposit,
  constrain_wrap_outflow-Ephemeral,
}
use arm_multisig_application.Guest.{
  multisig_main, wrap_main, multisig_forwarder, wrap_forwarder, expect,
}
use arm_multisig_application.Journal.Injective.{layout_inj}
use arm_multisig_application.Machine.{Build, u128_mod}
use arm_multisig_application.Platform.{Platform, IsLawful}
use arm_multisig_application.Witness.{
  MultisigBranchWitness, MultisigConsumedWitness, MultisigCreatedWitness, consumed, created,
  WrapBranchWitness, inflow, outflow,
}

pub expect-eq-ok : {E A : Type 0} (m : Circuit A) (a : A) → (expect {E = E} m ≡ ok a) ↔ (m ≡ ok a)
expect-eq-ok (ok x) a = (λ h. cc h, λ h. cc h)
expect-eq-ok (err e) a = (λ h. cc h, λ h. cc h)
expect-eq-ok panic a = (λ h. cc h, λ h. cc h)

-- What the multisig guest's branches stand for.
abbrev pub MultisigCommits : (p : Platform) → Build → MultisigBranchWitness p → Bytes → Type 0
MultisigCommits p b (consumed w) journal = Authorized p b w multisig_forwarder journal
MultisigCommits p b (created w) journal = Admitted p w journal

-- A spent note's quantity fits 128 bits.
abbrev pub Quantity : (p : Platform) → MultisigBranchWitness p → Type 0
Quantity p (consumed w) = w.resource.quantity < u128_mod
Quantity p (created w) = Unit {0}

-- The multisig guest commits to a journal, and does not panic, exactly where its witness is an
-- authorized spend with the pinned forwarder, or an admitted note, with that journal.
pub multisig_main-MultisigCommits :
    {E : Type 0} (p : Platform) (b : Build) (w : MultisigBranchWitness p) (journal : Bytes)
    → IsLawful p
    → Quantity p w
    → (multisig_main {E = E} p b w ≡ ok journal) ↔ MultisigCommits p b w journal
unfolding multisig_main
multisig_main-MultisigCommits {E} p b (consumed w) journal law bound =
    let spend = constrain_multisig_consumed p b w multisig_forwarder in
    let (down, up) = expect-eq-ok {E = E} spend journal in
    let (there, back) =
      constrain_multisig_consumed-Authorized p b w multisig_forwarder journal law bound in
    (λ h. there (down h), λ a. up (back a))
multisig_main-MultisigCommits {E} p b (created w) journal law bound =
    let (down, up) = expect-eq-ok {E = E} (constrain_multisig_created p w) journal in
    let (there, back) = constrain_multisig_created-Admitted p w journal in
    (λ h. there (down h), λ a. up (back a))

-- What the wrap guest's branches stand for.
abbrev pub WrapCommits : (p : Platform) → Build → WrapBranchWitness p → Bytes → Type 0
WrapCommits p b (inflow w) journal =
    Paired p w × (Deposit p b w wrap_forwarder × Nullified p w journal)
WrapCommits p b (outflow w) journal = Ephemeral p w journal

-- The wrap guest commits to a journal, and does not panic, exactly where its witness is a deposit
-- through the pinned forwarder, or an ephemeral resource with the witnessed label, with that
-- journal. Of an ephemeral resource's external payload nothing is checked but that its lengths fit.
pub wrap_main-WrapCommits :
    {E : Type 0} (p : Platform) (b : Build) (w : WrapBranchWitness p) (journal : Bytes)
    → IsLawful p
    → (wrap_main {E = E} p b w ≡ ok journal) ↔ WrapCommits p b w journal
unfolding wrap_main
wrap_main-WrapCommits {E} p b (inflow w) journal law =
    let (down, up) = expect-eq-ok {E = E} (constrain_wrap_inflow p b w wrap_forwarder) journal in
    let (there, back) = constrain_wrap_inflow-Deposit p b w wrap_forwarder journal law in
    (λ h. there (down h), λ a. up (back a))
wrap_main-WrapCommits {E} p b (outflow w) journal law =
    let (down, up) = expect-eq-ok {E = E} (constrain_wrap_outflow p w) journal in
    let (there, back) = constrain_wrap_outflow-Ephemeral p w journal in
    (λ h. there (down h), λ a. up (back a))

-- A journal that the multisig guest commits to for a spend is never one that it commits to for a
-- new note: no proof of the one serves as a proof of the other.
pub multisig_main-consumed_created :
    {E : Type 0} (p : Platform) (b : Build) (w : MultisigConsumedWitness p)
    (v : MultisigCreatedWitness p) {i j : Bytes}
    → IsLawful p
    → multisig_main {E = E} p b (consumed w) ≡ ok i
    → multisig_main {E = E} p b (created v) ≡ ok j
    → i ≢ j
unfolding multisig_main
multisig_main-consumed_created {E} p b w v {i} {j} law hw hv same =
    let spend = constrain_multisig_consumed p b w multisig_forwarder in
    let sealed =
      (constrain_sound p law b w multisig_forwarder ((expect-eq-ok {E = E} spend i).0 hw)).sealed in
    let note =
      (constrain_multisig_created-Admitted p v j).0
        ((expect-eq-ok {E = E} (constrain_multisig_created p v) j).0 hv) in
    let instances =
      layout_inj (instance_of p w sealed.nullifier) _
        (record {
          tag = law.length-as_bytes sealed.nullifier;
          action_tree_root = law.length-as_bytes w.action_tree_root;
        })
        (record {
          tag = law.length-as_bytes (p.commitment v.resource);
          action_tree_root = law.length-as_bytes v.action_tree_root;
        })
        sealed.fits note.fits (sym sealed.journal_layout ∙ same ∙ note.journal_layout) in
    cc (ap (λ x. x.is_consumed) instances)
