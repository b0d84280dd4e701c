-- ===== src/Journal/Errors.antt =====
-- The calls that return or panic, and have no error: the encoder, and indexing.
use arm_multisig_application.Base.{
  ℕ, zero, suc, List, [], ◌∷◌, ◌++◌, AllErrors, ok-AllErrors, >>=-AllErrors, length,
}
use arm_multisig_application.Base.Bytes.{Bytes}
use arm_multisig_application.Base.Words.{to_le_bytes}
use arm_multisig_application.Journal.{
  ExpirableBlob, LogicInstance, as_u8, expect_u32, encode_blobs, encode_payload, encode,
}
use arm_multisig_application.Machine.{index}
use native.Mathlib.Omega.{arith}

module _ {E : Type 0} (P : E → Type 0) where
  pub expect_u32-AllErrors : (n : ℕ) → AllErrors P (expect_u32 n)
  expect_u32-AllErrors n e h = ground arith

  encode_blobs-AllErrors :
      (out : Bytes) (payload : List ExpirableBlob) → AllErrors P (encode_blobs out payload)
  unfolding encode_blobs
  encode_blobs-AllErrors out [] = ok-AllErrors P out
  encode_blobs-AllErrors out (b ∷ payload) =
      >>=-AllErrors P (expect_u32 (length b.blob)) _ (expect_u32-AllErrors (length b.blob)) (λ n _.
        encode_blobs-AllErrors (out ++ (as_u8 b.deletion_criterion ∷ to_le_bytes n ++ b.blob))
          payload)

  encode_payload-AllErrors :
      (out : Bytes) (payload : List ExpirableBlob) → AllErrors P (encode_payload out payload)
  unfolding encode_payload
  encode_payload-AllErrors out payload =
      >>=-AllErrors P (expect_u32 (length payload)) _ (expect_u32-AllErrors (length payload))
        (λ n _. encode_blobs-AllErrors (out ++ to_le_bytes n) payload)

  pub encode-AllErrors : (i : LogicInstance) → AllErrors P (encode i)
  unfolding encode
  encode-AllErrors i =
      let app = i.app_data in
      >>=-AllErrors P (encode_payload _ app.resource_payload) _
        (encode_payload-AllErrors _ app.resource_payload)
        (λ out _.
          >>=-AllErrors P (encode_payload out app.discovery_payload) _
            (encode_payload-AllErrors out app.discovery_payload)
            (λ out _.
              >>=-AllErrors P (encode_payload out app.external_payload) _
                (encode_payload-AllErrors out app.external_payload)
                (λ out _. encode_payload-AllErrors out app.application_payload)))

  -- Nor has an index that is out of range: it panics.
  pub index-AllErrors : {A : Type 0} (xs : List A) (i : ℕ) → AllErrors P (index xs i)
  unfolding index
  index-AllErrors [] i e h = cc h
  index-AllErrors (x ∷ xs) zero e h = cc h
  index-AllErrors (x ∷ xs) (suc i) e h = index-AllErrors xs i e h
