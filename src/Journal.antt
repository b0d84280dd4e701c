-- ===== src/Journal.antt =====
-- `journal.rs` of multisig-core: the bytes of a logic instance that a proof commits to.
pub mod Layout
pub mod Injective
pub mod Errors
use arm_multisig_application.Base.{
  ℕ, ◌+◌, ◌*◌, ◌^◌, Bool, true, false, List, [], ◌∷◌, ◌++◌, Outcome, ok, panic, ◌>>=◌, length, ltb,
  if◌then◌else◌,
}
use arm_multisig_application.Base.Bytes.{Bytes}
use arm_multisig_application.Base.Words.{to_le_bytes}
use arm_multisig_application.Platform.{Platform}

pub data DeletionCriterion : Type 0 where
  immediately : DeletionCriterion
  never : DeletionCriterion

-- `deletion_criterion as u8`
abbrev pub as_u8 : DeletionCriterion → ℕ
as_u8 immediately = 0
as_u8 never = 1

pub record ExpirableBlob : Type 0 where
  pub deletion_criterion : DeletionCriterion
  pub blob : Bytes

pub record AppData : Type 0 where
  pub resource_payload : List ExpirableBlob
  pub discovery_payload : List ExpirableBlob
  pub external_payload : List ExpirableBlob
  pub application_payload : List ExpirableBlob

pub record LogicInstance : Type 0 where
  pub tag : Bytes
  pub is_consumed : Bool
  pub action_tree_root : Bytes
  pub app_data : AppData

module _ {E : Type 0} where
  -- `u32::try_from(n).expect(…)`
  abbrev pub expect_u32 : ℕ → Outcome E ℕ
  expect_u32 n = if ltb n (2 ^ 32) then ok n else panic

  -- The loop of `encode_payload`, with the output buffer `out`.
  unfoldable pub encode_blobs : Bytes → List ExpirableBlob → Outcome E Bytes
  encode_blobs out [] = ok out
  encode_blobs out (b ∷ payload) = do
    blob_len ← expect_u32 (length b.blob)
    encode_blobs (out ++ (as_u8 b.deletion_criterion ∷ to_le_bytes blob_len ++ b.blob)) payload

  unfoldable pub encode_payload : Bytes → List ExpirableBlob → Outcome E Bytes
  unfolding encode_blobs
  encode_payload out payload = do
    len ← expect_u32 (length payload)
    encode_blobs (out ++ to_le_bytes len) payload

  unfoldable pub encode : LogicInstance → Outcome E Bytes
  encode instance = do
    let flag = if instance.is_consumed then 1 else 0
    out ←
        encode_payload (instance.tag ++ to_le_bytes flag ++ instance.action_tree_root)
          instance.app_data.resource_payload
    out ← encode_payload out instance.app_data.discovery_payload
    out ← encode_payload out instance.app_data.external_payload
    encode_payload out instance.app_data.application_payload

-- `digest`
unfoldable pub digest : {E : Type 0} → Platform → LogicInstance → Outcome E Bytes
digest p instance = do bytes ← encode instance; ok (p.sha256 bytes)

-- One inner `for` of `estimate_size`.
blobs_size : ℕ → List ExpirableBlob → ℕ
blobs_size s [] = s
blobs_size s (b ∷ payload) = blobs_size (s + 1 + 4 + length b.blob) payload

-- The capacity that `encode` reserves.
unfoldable pub estimate_size : LogicInstance → ℕ
unfolding blobs_size
estimate_size instance =
    let app = instance.app_data in
    let s : ℕ = 32 + 4 + 32 + 4 * 4 in
    blobs_size
      (blobs_size (blobs_size (blobs_size s app.resource_payload) app.discovery_payload)
        app.external_payload)
      app.application_payload
