-- ===== src/Contracts/LogicJournal/Agreement.antt =====
-- `LogicJournal.sol` and `journal.rs` write the same bytes.
use arm_multisig_application.Base.{
  ℕ, ◌+◌, ◌*◌, ◌/◌, ◌%◌, ◌^◌, ◌<◌, ◌≡◌, ◌↔◌, ◌∙◌, refl, sym, ap, ap₂, Bool, true, false, List, [],
  ◌∷◌, ◌++◌, ok, length, if◌then◌else◌, All, arith,
}
use arm_multisig_application.Base.Bits.{
  bit_and-byte, bit_or-byte, byte-and_zero, byte-and_ones, byte-or_zero, zero-or_byte,
}
use arm_multisig_application.Base.Bytes.{Bytes}
use arm_multisig_application.Base.Words.{to_be, to_le_bytes}
use arm_multisig_application.Contracts.LogicJournal.{
  to_uint32, shift_left, shift_right, reverse_byte_order_uint32, packed_length, encode_from,
  encode_payload, encode, digest,
}
use arm_multisig_application.Journal
use arm_multisig_application.Journal.{ExpirableBlob, LogicInstance, as_u8}
use arm_multisig_application.Journal.Layout.{
  blob_layout, blobs_layout, payload_layout, layout, Fits, FitsAll, encode-layout, encode-eq_layout,
}
use arm_multisig_application.Platform.{Platform}
use Prim.Native.Nat.{bit_and, bit_or}
use mathlib.Core.List.{append_assoc, append-nil}

-- Four bytes as a number, the first the highest.
abbrev word : ℕ → ℕ → ℕ → ℕ → ℕ
word d c b a = ((d * 256 + c) * 256 + b) * 256 + a

module _ (d c b a : ℕ) (hd : d < 256) (hc : c < 256) (hb : b < 256) (ha : a < 256) where
  odd_bytes : bit_and (word d c b a) 0xFF00FF00 ≡ word d 0 b 0
  odd_bytes =
      bit_and-byte ((d * 256 + c) * 256 + b) 0xFF00FF a 0 ha (omega arith)
      ∙ rw
          (
            bit_and-byte (d * 256 + c) 0xFF00 b 0xFF hb (omega arith),
            bit_and-byte d 0xFF c 0 hc (omega arith),
            byte-and_ones d hd,
            byte-and_zero c hc,
            byte-and_ones b hb,
            byte-and_zero a ha,
          )
          refl

  even_bytes : bit_and (word d c b a) 0x00FF00FF ≡ word 0 c 0 a
  even_bytes =
      bit_and-byte ((d * 256 + c) * 256 + b) 0xFF00 a 0xFF ha (omega arith)
      ∙ rw
          (
            bit_and-byte (d * 256 + c) 0xFF b 0 hb (omega arith),
            bit_and-byte d 0 c 0xFF hc (omega arith),
            byte-and_zero d hd,
            byte-and_ones c hc,
            byte-and_zero b hb,
            byte-and_ones a ha,
          )
          refl

  -- The two neighbours of each half change places, and then the halves.
  merged : bit_or (word 0 d 0 b) (word c 0 a 0) ≡ word c d a b
  merged =
      bit_or-byte ((0 * 256 + d) * 256 + 0) ((c * 256 + 0) * 256 + a) b 0 hb (omega arith)
      ∙ rw
          (
            bit_or-byte (0 * 256 + d) (c * 256 + 0) 0 a (omega arith) ha,
            bit_or-byte 0 c d 0 hd (omega arith),
            zero-or_byte c,
            byte-or_zero d hd,
            zero-or_byte a,
            byte-or_zero b hb,
          )
          refl

  joined : bit_or (word 0 0 c d) (word a b 0 0) ≡ word a b c d
  joined =
      bit_or-byte ((0 * 256 + 0) * 256 + c) ((a * 256 + b) * 256 + 0) d 0 hd (omega arith)
      ∙ rw
          (
            bit_or-byte (0 * 256 + 0) (a * 256 + b) c 0 hc (omega arith),
            bit_or-byte 0 a 0 b (omega arith) hb,
            zero-or_byte a,
            zero-or_byte b,
            byte-or_zero c hc,
            byte-or_zero d hd,
          )
          refl

  reversed : reverse_byte_order_uint32 (word d c b a) ≡ word a b c d
  unfolding reverse_byte_order_uint32 shift_left shift_right
  reversed =
      let right_8 : word d 0 b 0 / 2 ^ 8 ≡ word 0 d 0 b = omega arith in
      let left_8 : word 0 c 0 a * 2 ^ 8 % 2 ^ 32 ≡ word c 0 a 0 = omega arith in
      let right_16 : word c d a b / 2 ^ 16 ≡ word 0 0 c d = omega arith in
      let left_16 : word c d a b * 2 ^ 16 % 2 ^ 32 ≡ word a b 0 0 = omega arith in
      rw (odd_bytes, even_bytes, right_8, left_8, merged, right_16, left_16) joined

  packed : to_be 4 (word a b c d) ≡ to_le_bytes (word d c b a)
  unfolding to_be to_le_bytes
  packed =
      let le = word d c b a in
      let be = word a b c d in
      let first : be / 256 / 256 / 256 % 256 ≡ le % 256 = omega arith in
      let second : be / 256 / 256 % 256 ≡ le / 256 % 256 = omega arith in
      let third : be / 256 % 256 ≡ le / 65536 % 256 = omega arith in
      let fourth : be % 256 ≡ le / 16777216 % 256 = omega arith in
      ap₂ ◌∷◌ first (ap₂ ◌∷◌ second (ap₂ ◌∷◌ third (ap₂ ◌∷◌ fourth refl)))

packed_length-to_le_bytes : (n : ℕ) → n < 2 ^ 32 → packed_length n ≡ to_le_bytes n
unfolding packed_length to_uint32
packed_length-to_le_bytes n h =
    let d = n / 16777216 in
    let c = n / 65536 % 256 in
    let b = n / 256 % 256 in
    let a = n % 256 in
    let bytes : n % 2 ^ 32 ≡ word d c b a = omega arith in
    let same : word d c b a ≡ n = omega arith in
    rw (bytes, reversed d c b a (omega arith) (omega arith) (omega arith) (omega arith))
      (packed d c b a (omega arith) (omega arith) (omega arith) (omega arith) ∙ ap to_le_bytes same)

encode_from-layout :
    (out : Bytes) (payload : List ExpirableBlob)
    → All (λ b. length b.blob < 2 ^ 32) payload
    → encode_from out payload ≡ out ++ blobs_layout payload
unfolding encode_from
encode_from-layout out [] h = sym (append-nil out)
encode_from-layout out (b ∷ payload) (hb, hs) = rw (packed_length-to_le_bytes (length b.blob) hb) (
    encode_from-layout (out ++ blob_layout b) payload hs
    ∙ append_assoc out (blob_layout b) (blobs_layout payload))

-- A length and what it counts, with the bytes behind.
payload-layout :
    (payload : List ExpirableBlob) (behind : Bytes)
    → Fits payload
    → packed_length (length payload) ++ (encode_payload payload ++ behind)
      ≡ payload_layout payload ++ behind
unfolding encode_payload
payload-layout payload behind (hl, hs) =
    ap₂ (λ xs ys. xs ++ (ys ++ behind)) (packed_length-to_le_bytes (length payload) hl)
      (encode_from-layout [] payload hs)
    ∙ sym (append_assoc (to_le_bytes (length payload)) (blobs_layout payload) behind)

last_payload-layout :
    (payload : List ExpirableBlob)
    → Fits payload
    → packed_length (length payload) ++ encode_payload payload ≡ payload_layout payload
unfolding encode_payload
last_payload-layout payload (hl, hs) =
    ap₂ ◌++◌ (packed_length-to_le_bytes (length payload) hl) (encode_from-layout [] payload hs)

flag-layout :
    (b : Bool) → to_be 4 (if b then 0x01000000 else 0x00000000) ≡ to_le_bytes (if b then 1 else 0)
unfolding to_be to_le_bytes
flag-layout true = refl
flag-layout false = refl

encode_sol-layout : (i : LogicInstance) → FitsAll i.app_data → encode i ≡ layout i
unfolding encode layout
encode_sol-layout i fits =
    let app = i.app_data in
    let last : Bytes = payload_layout app.application_payload in
    let external : Bytes = payload_layout app.external_payload ++ last in
    let discovery : Bytes = payload_layout app.discovery_payload ++ external in
    rw (
      flag-layout i.is_consumed,
      last_payload-layout app.application_payload fits.application_payload,
      payload-layout app.external_payload last fits.external_payload,
      payload-layout app.discovery_payload external fits.discovery_payload,
      payload-layout app.resource_payload discovery fits.resource_payload,
    )

-- `journal.rs` returns the bytes of `LogicJournal.sol` exactly where all lengths fit 32 bits.
pub encode-LogicJournal :
    {E : Type 0} (i : LogicInstance)
    → (Journal.encode {E = E} i ≡ ok (encode i)) ↔ FitsAll i.app_data
encode-LogicJournal {E} i = (
  λ h. (encode-eq_layout i h).0,
  λ fits. encode-layout {E = E} i fits ∙ ap ok (sym (encode_sol-layout i fits)),
)

-- So are the digests.
digest-LogicJournal :
    {E : Type 0} (p : Platform) (i : LogicInstance)
    → FitsAll i.app_data
    → Journal.digest {E = E} p i ≡ ok (digest p i)
unfolding Journal.digest digest
digest-LogicJournal {E} p i fits = rw ((encode-LogicJournal {E = E} i).1 fits) refl
