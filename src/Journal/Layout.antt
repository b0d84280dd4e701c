-- ===== src/Journal/Layout.antt =====
-- The byte layout that `encode` writes, as one expression, and when `encode` panics.
use arm_multisig_application.Base.{
  ℕ, ◌+◌, ◌^◌, ◌<◌, ◌≡◌, ◌↔◌, ◌∙◌, ap, List, [], ◌∷◌, ◌++◌, Outcome, ok, ◌>>=◌, length,
  length-append, ltb, if◌then◌else◌, All, arith, lt→ltb, ltb→lt, Bool-cases, inl, inr, >>=-eq-ok,
}
use arm_multisig_application.Base.Bytes.{Bytes}
use arm_multisig_application.Base.Words.{to_le_bytes, length-to_le_bytes}
use arm_multisig_application.Journal.{
  ExpirableBlob, AppData, LogicInstance, as_u8, expect_u32, encode_blobs, encode_payload, encode,
  blobs_size, estimate_size,
}
use mathlib.Core.List.{append_assoc, append-nil}

-- The criterion byte, the length and the bytes of a blob.
abbrev pub blob_layout : ExpirableBlob → Bytes
blob_layout b = as_u8 b.deletion_criterion ∷ to_le_bytes (length b.blob) ++ b.blob

abbrev pub blobs_layout : List ExpirableBlob → Bytes
blobs_layout [] = []
blobs_layout (b ∷ payload) = blob_layout b ++ blobs_layout payload

abbrev pub payload_layout : List ExpirableBlob → Bytes
payload_layout payload = to_le_bytes (length payload) ++ blobs_layout payload

abbrev pub app_layout : AppData → Bytes
app_layout app =
    payload_layout app.resource_payload
    ++ (payload_layout app.discovery_payload
        ++ (payload_layout app.external_payload ++ payload_layout app.application_payload))

unfoldable pub layout : LogicInstance → Bytes
layout i =
    i.tag
    ++ (to_le_bytes (if i.is_consumed then 1 else 0)
        ++ (i.action_tree_root ++ app_layout i.app_data))

-- What the array types of `LogicInstance` say: both digests have 32 bytes.
pub record IsValid (i : LogicInstance) : Type 0 where
  pub tag : length i.tag ≡ 32
  pub action_tree_root : length i.action_tree_root ≡ 32

-- Every length that `encode` writes fits 32 bits.
abbrev pub Fits : List ExpirableBlob → Type 0
Fits payload = (length payload < 2 ^ 32) × All (λ b. length b.blob < 2 ^ 32) payload

pub record FitsAll (app : AppData) : Type 0 where
  pub resource_payload : Fits app.resource_payload
  pub discovery_payload : Fits app.discovery_payload
  pub external_payload : Fits app.external_payload
  pub application_payload : Fits app.application_payload

module _ {E : Type 0} where
  encode_blobs-layout :
      (out : Bytes) (payload : List ExpirableBlob)
      → All (λ b. length b.blob < 2 ^ 32) payload
      → encode_blobs {E = E} out payload ≡ ok (out ++ blobs_layout payload)
  unfolding encode_blobs
  encode_blobs-layout out [] h = rw append-nil
  encode_blobs-layout out (b ∷ payload) (hb, hs) = rw (lt→ltb _ _ hb) (
      encode_blobs-layout (out ++ blob_layout b) payload hs
      ∙ ap ok (append_assoc out (blob_layout b) (blobs_layout payload)))

  encode_payload-layout :
      (out : Bytes) (payload : List ExpirableBlob)
      → Fits payload
      → encode_payload {E = E} out payload ≡ ok (out ++ payload_layout payload)
  unfolding encode_payload
  encode_payload-layout out payload (hl, hs) = rw (lt→ltb _ _ hl) (
      encode_blobs-layout (out ++ to_le_bytes (length payload)) payload hs
      ∙ ap ok (append_assoc out (to_le_bytes (length payload)) (blobs_layout payload)))

  -- Where every length fits 32 bits, `encode` does not panic and writes the layout.
  pub encode-layout : (i : LogicInstance) → FitsAll i.app_data → encode {E = E} i ≡ ok (layout i)
  unfolding encode layout
  encode-layout i fits =
      rw
        (
          encode_payload-layout _ _ fits.resource_payload,
          encode_payload-layout _ _ fits.discovery_payload,
          encode_payload-layout _ _ fits.external_payload,
          encode_payload-layout _ _ fits.application_payload,
        )
        (simp append_assoc)

  pub expect_u32-bind :
      {A : Type 0} (n : ℕ) (f : ℕ → Outcome E A) {a : A}
      → (expect_u32 n >>= f) ≡ ok a
      → (n < 2 ^ 32) × (f n ≡ ok a)
  expect_u32-bind n f h = elim (Bool-cases (ltb n (2 ^ 32))) [
    | inl e ↦ (ltb→lt n _ e, rw e at h)
    | inr e ↦ absurd (let stop = rw e at h in cc stop)
  ]

  encode_blobs-Fits :
      (out : Bytes) (payload : List ExpirableBlob) {bs : Bytes}
      → encode_blobs {E = E} out payload ≡ ok bs
      → All (λ b. length b.blob < 2 ^ 32) payload
  unfolding encode_blobs
  encode_blobs-Fits out [] h = tt
  encode_blobs-Fits out (b ∷ payload) h =
      let (hb, h') = expect_u32-bind (length b.blob) _ h in
      (hb, encode_blobs-Fits (out ++ blob_layout b) payload h')

  encode_payload-Fits :
      (out : Bytes) (payload : List ExpirableBlob) {bs : Bytes}
      → encode_payload {E = E} out payload ≡ ok bs
      → Fits payload
  unfolding encode_payload
  encode_payload-Fits out payload h =
      let (hl, h') = expect_u32-bind (length payload) _ h in
      (hl, encode_blobs-Fits (out ++ to_le_bytes (length payload)) payload h')

  -- `encode` returns only where every length fits 32 bits.
  pub encode-FitsAll :
      (i : LogicInstance) {bs : Bytes} → encode {E = E} i ≡ ok bs → FitsAll i.app_data
  unfolding encode
  encode-FitsAll i h =
      let (out, h₁, r₁) = >>=-eq-ok _ _ h in
      let (out', h₂, r₂) = >>=-eq-ok _ _ r₁ in
      let (out'', h₃, h₄) = >>=-eq-ok _ _ r₂ in
      record {
        resource_payload = encode_payload-Fits _ _ h₁;
        discovery_payload = encode_payload-Fits _ _ h₂;
        external_payload = encode_payload-Fits _ _ h₃;
        application_payload = encode_payload-Fits _ _ h₄;
      }

  -- What `encode` returns is the layout, and every length in it fits 32 bits.
  pub encode-eq_layout :
      (i : LogicInstance) {bs : Bytes}
      → encode {E = E} i ≡ ok bs
      → FitsAll i.app_data × (bs ≡ layout i)
  encode-eq_layout i h = let fits = encode-FitsAll i h in (fits, cc (h, encode-layout i fits))

  -- `encode` returns exactly where every number of blobs and every blob's length fits 32 bits, and
  -- what it returns is the layout: tag, flag and root, then the four payloads in their order, each
  -- with its length in front, and each blob with its criterion and its length in front.
  pub encode-iff_layout :
      (i : LogicInstance) (bs : Bytes)
      → (encode {E = E} i ≡ ok bs) ↔ (FitsAll i.app_data × (bs ≡ layout i))
  encode-iff_layout i bs = (encode-eq_layout i, λ (fits, same). rw same (encode-layout i fits))

blobs_size-layout :
    (s : ℕ) (payload : List ExpirableBlob)
    → blobs_size s payload ≡ s + length (blobs_layout payload)
unfolding blobs_size
blobs_size-layout s [] = omega arith
blobs_size-layout s (b ∷ payload) = omega (
  arith,
  blobs_size-layout (s + 1 + 4 + length b.blob) payload,
  length-append (blob_layout b) (blobs_layout payload),
  length-append (to_le_bytes (length b.blob)) b.blob,
  length-to_le_bytes (length b.blob),
)

length-payload_layout :
    (payload : List ExpirableBlob)
    → length (payload_layout payload) ≡ 4 + length (blobs_layout payload)
length-payload_layout payload = omega (
  arith,
  length-append (to_le_bytes (length payload)) (blobs_layout payload),
  length-to_le_bytes (length payload),
)

layout-estimate_size : (i : LogicInstance) → IsValid i → length (layout i) ≡ estimate_size i
unfolding estimate_size layout
layout-estimate_size i v =
    simp (blobs_size-layout, length-append, length-to_le_bytes, v.tag, v.action_tree_root)
      (omega arith)

-- The capacity that `encode` reserves is the length of what it returns, for a tag and a root of 32
-- bytes: the buffer never grows.
pub length-encode :
    {E : Type 0} (i : LogicInstance) {bs : Bytes}
    → IsValid i
    → encode {E = E} i ≡ ok bs
    → length bs ≡ estimate_size i
length-encode i v h = rw (encode-eq_layout i h).1 (layout-estimate_size i v)
