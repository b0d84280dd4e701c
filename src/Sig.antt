-- ===== src/Sig.antt =====
-- `sig.rs` of multisig-core: one ECDSA signature, with low-s enforcement.
use arm_multisig_application.Base.{not, Outcome, ◌>>=◌, ◌>>◌, reject_if, some_or, codes, is_some}
use arm_multisig_application.Base.Bytes.{Bytes}
use arm_multisig_application.Platform.{Platform}

-- `K_DOMAIN_SEP`
abbrev pub k_domain_sep : Bytes
k_domain_sep = codes "anoma.multisig.v1.spend"

pub data SigError : Type 0 where
  invalid_pubkey invalid_signature non_normalized_s verify_failed : SigError

module _ (p : Platform) where
  unfoldable pub verify_secp256k1 : Bytes → Bytes → Bytes → Outcome SigError (Unit {0})
  verify_secp256k1 pubkey_compressed msg sig_der = do
    vk ← some_or (p.from_sec1_bytes pubkey_compressed) invalid_pubkey
    sig ← some_or (p.from_der sig_der) invalid_signature
    reject_if (is_some (p.normalize_s sig)) non_normalized_s
    reject_if (not (p.verify_digest vk msg sig)) verify_failed
