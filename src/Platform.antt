-- ===== src/Platform.antt =====
-- What the program takes from elsewhere: SHA-256 (`sha2`), the RISC Zero digest type
-- (`risc0_zkvm`), resources and nullifier keys (`anoma_rm_risc0`), ECDSA (`k256`).
-- All of it is a parameter; `IsLawful` names the documented behaviour that proofs rely on.
pub mod Collision
use arm_multisig_application.Base.{ℕ, ◌≡◌, ◌↔◌, Bool, true, Option, length}
use arm_multisig_application.Base.Bytes.{Bytes}

-- `anoma_rm_risc0::resource::Resource`, by the fields that the program names.
pub record Resource (Digest NullifierKeyCommitment : Type 0) : Type 0 where
  pub logic_ref : Digest
  pub label_ref : Digest
  pub quantity : ℕ
  pub value_ref : Digest
  pub is_ephemeral : Bool
  pub nonce : Bytes
  pub nk_commitment : NullifierKeyCommitment
  pub rand_seed : Bytes

pub record Platform : Type 1 where
  -- `risc0_zkvm::sha::Digest`
  pub Digest : Type 0
  pub as_bytes : Digest → Bytes
  pub digest_eq : Digest → Digest → Bool
  -- `Sha256`: the digest of all the bytes that a hasher was updated with
  pub sha256 : Bytes → Bytes
  -- `anoma_rm_risc0`; `tag` is `none` where `Resource::tag` returns an error
  pub NullifierKey : Type 0
  pub NullifierKeyCommitment : Type 0
  pub inner : NullifierKey → Bytes
  pub commit : NullifierKey → NullifierKeyCommitment
  pub nk_commitment_eq : NullifierKeyCommitment → NullifierKeyCommitment → Bool
  pub commitment : Resource Digest NullifierKeyCommitment → Digest
  pub tag : Resource Digest NullifierKeyCommitment → Bool → NullifierKey → Option Digest
  -- `k256::ecdsa`; `verify_digest` takes the bytes that its hasher was updated with
  pub VerifyingKey : Type 0
  pub Signature : Type 0
  pub from_sec1_bytes : Bytes → Option VerifyingKey
  pub from_der : Bytes → Option Signature
  pub normalize_s : Signature → Option Signature
  pub verify_digest : VerifyingKey → Bytes → Signature → Bool

-- Digests have 32 bytes, and the equality tests decide equality.
pub record IsLawful (p : Platform) : Type 0 where
  pub length-as_bytes : (d : p.Digest) → length (p.as_bytes d) ≡ 32
  pub length-sha256 : (bs : Bytes) → length (p.sha256 bs) ≡ 32
  pub digest_eq_iff : (c d : p.Digest) → (p.digest_eq c d ≡ true) ↔ (c ≡ d)
  pub nk_commitment_eq_iff :
      (c d : p.NullifierKeyCommitment) → (p.nk_commitment_eq c d ≡ true) ↔ (c ≡ d)
