-- ===== src/Constrain/Created.antt =====
-- `constrain_multisig_created` of `constrain.rs`: a vault note is made.
pub mod Refinement
pub mod Refusal
use arm_multisig_application.Base.{not, ◌&&◌, ◌||◌, ◌>>◌, reject_if, replicate, ltb, leb, ◌==◌}
use arm_multisig_application.Base.Bytes.{Bytes, bytes_eq}
use arm_multisig_application.Constrain.Errors.{
  Circuit, zero_salt, invalid_k_n, wrong_label_ref, created_instance,
}
use arm_multisig_application.Journal
use arm_multisig_application.Label
use arm_multisig_application.Platform.{Platform}
use arm_multisig_application.Witness.{MultisigCreatedWitness}

unfoldable pub constrain_multisig_created :
    (p : Platform) → MultisigCreatedWitness p → Circuit Bytes
constrain_multisig_created p w = do
  reject_if (bytes_eq w.label_preimage.salt (replicate 32 0)) zero_salt
  let n = w.label_preimage.n
  let k = w.label_preimage.k
  reject_if (not (leb 1 n && leb n 32) || (k == 0 || ltb n k)) invalid_k_n
  reject_if (not (bytes_eq (p.as_bytes w.resource.label_ref) (Label.label_ref p w.label_preimage)))
      wrong_label_ref
  Journal.encode (created_instance p w.resource w.action_tree_root w.app_data)
