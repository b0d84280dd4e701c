-- ===== src/Contracts/Outflow.antt =====
-- The external payload of `constrain_wrap_outflow`, and what the protocol adapter does for it.
use arm_multisig_application.Base.{
  ◌^◌, ◌<◌, ◌≡◌, refl, false, List, [], ◌∷◌, All, ok, length, arith,
}
use arm_multisig_application.Base.Bytes.{Bytes}
use arm_multisig_application.Constrain.Wrap.{constrain_wrap_outflow}
use arm_multisig_application.Constrain.Wrap.Refinement.{constrain_wrap_outflow-Ephemeral}
use arm_multisig_application.Contracts.Erc20.{Erc20}
use arm_multisig_application.Contracts.Forwarder.{MultisigForwarder}
use arm_multisig_application.Contracts.RoundTrip.{Pays, transfer_blobs-Runs}
use arm_multisig_application.Contracts.Settlement.{Runs, Others}
use arm_multisig_application.Fixtures.Transfers.{
  Transfer, IsTransfer, transfer_blobs, length-encode_external_transfer,
}
use arm_multisig_application.Journal.{ExpirableBlob}
use arm_multisig_application.Journal.Layout.{layout, Fits}
use arm_multisig_application.Platform.{Platform}
use arm_multisig_application.Witness.{WrapOutflowWitness}

-- The witness with another external payload.
abbrev pub with_payload :
    (p : Platform) → List ExpirableBlob → WrapOutflowWitness p → WrapOutflowWitness p
with_payload p blobs w = record w { app_data = record w.app_data { external_payload = blobs } }

length-transfer_blobs :
    (forwarder token : Bytes) (ts : List Transfer)
    → length (transfer_blobs forwarder token ts) ≡ length ts
length-transfer_blobs forwarder token [] = refl
length-transfer_blobs forwarder token (t ∷ ts) =
    omega (arith, length-transfer_blobs forwarder token ts)

transfer_blobs-short :
    (forwarder token : Bytes) (ts : List Transfer)
    → length forwarder ≡ 20
    → length token ≡ 20
    → All IsTransfer ts
    → All (λ b. length b.blob < 2 ^ 32) (transfer_blobs forwarder token ts)
transfer_blobs-short forwarder token [] hf ht h = tt
transfer_blobs-short forwarder token (t ∷ ts) hf ht ((hr, _), hs) = (
  omega (arith, length-encode_external_transfer forwarder token t.recipient t.amount hf ht hr),
  transfer_blobs-short forwarder token ts hf ht hs,
)

transfer_blobs-Fits :
    (forwarder token : Bytes) (ts : List Transfer)
    → length forwarder ≡ 20
    → length token ≡ 20
    → All IsTransfer ts
    → length ts < 2 ^ 32
    → Fits (transfer_blobs forwarder token ts)
transfer_blobs-Fits forwarder token ts hf ht h few = (
  omega (arith, length-transfer_blobs forwarder token ts),
  transfer_blobs-short forwarder token ts hf ht h,
)

-- An outflow that `constrain_wrap_outflow` accepts stays accepted, with the journal of the new
-- payload, when its external payload is replaced by encoded transfers of any 20-byte token to any
-- 20-byte recipients, of any 128-bit amounts, fewer than 2 ^ 32 of them, whatever the resource's
-- quantity and label are; and the calls that this payload decodes to, made by the protocol adapter
-- for the forwarder's logic, do exactly those transfers from the forwarder, where none of them
-- reverts.
pub constrain_wrap_outflow-any_payload :
    (p : Platform) (w : WrapOutflowWitness p) {journal : Bytes} (e : Erc20) (others : Others e)
    (f : MultisigForwarder) (token : Bytes) (ts : List Transfer) {s t : e.State}
    → constrain_wrap_outflow p w ≡ ok journal
    → length f.this ≡ 20
    → length token ≡ 20
    → All IsTransfer ts
    → length ts < 2 ^ 32
    → Pays e f token ts s t
    → (constrain_wrap_outflow p (with_payload p (transfer_blobs f.this token ts) w)
        ≡ ok (
            layout (record {
              tag = p.as_bytes (p.commitment w.resource);
              is_consumed = false;
              action_tree_root = p.as_bytes w.action_tree_root;
              app_data = (with_payload p (transfer_blobs f.this token ts) w).app_data;
            })))
      × Runs e others f f.pa f.wrap_logic_ref (transfer_blobs f.this token ts) s t
constrain_wrap_outflow-any_payload p w {journal} e others f token ts accepted hf ht h few paid =
    let a = (constrain_wrap_outflow-Ephemeral p w journal).0 accepted in
    let blobs = transfer_blobs f.this token ts in
    (
      (constrain_wrap_outflow-Ephemeral p (with_payload p blobs w) _).1 (record {
        ephemeral = a.ephemeral;
        label_ref = a.label_ref;
        fits = record {
          resource_payload = a.fits.resource_payload;
          discovery_payload = a.fits.discovery_payload;
          external_payload = transfer_blobs-Fits f.this token ts hf ht h few;
          application_payload = a.fits.application_payload;
        };
        journal_layout = refl;
      }),
      transfer_blobs-Runs e others f token ts hf ht h paid,
    )
