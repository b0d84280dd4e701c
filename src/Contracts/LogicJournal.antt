-- ===== src/Contracts/LogicJournal.antt =====
-- `LogicJournal.sol`: the journal encoding as the contracts' tests check it. The structs are those
-- of `Journal`, field by field.
pub mod Agreement
use arm_multisig_application.Base.{
  ℕ, ◌*◌, ◌/◌, ◌%◌, ◌^◌, List, [], ◌∷◌, ◌++◌, length, if◌then◌else◌,
}
use arm_multisig_application.Base.Bytes.{Bytes}
use arm_multisig_application.Base.Words.{to_be}
use arm_multisig_application.Journal.{ExpirableBlob, LogicInstance, as_u8}
use arm_multisig_application.Platform.{Platform}
use Prim.Native.Nat.{bit_and, bit_or}

-- `uint32(x)`
unfoldable pub to_uint32 : ℕ → ℕ
to_uint32 x = x % 2 ^ 32

-- `<<` and `>>` on `uint32`
unfoldable pub shift_left : ℕ → ℕ → ℕ
shift_left v k = v * 2 ^ k % 2 ^ 32

unfoldable pub shift_right : ℕ → ℕ → ℕ
shift_right v k = v / 2 ^ k

unfoldable pub reverse_byte_order_uint32 : ℕ → ℕ
unfolding shift_left shift_right
reverse_byte_order_uint32 input =
    let v =
      bit_or (shift_right (bit_and input 0xFF00FF00) 8) (shift_left (bit_and input 0x00FF00FF) 8) in
    bit_or (shift_right v 16) (shift_left v 16)

-- `reverseByteOrderUint32(uint32(n))`, packed into 4 bytes
unfoldable pub packed_length : ℕ → Bytes
unfolding to_uint32 reverse_byte_order_uint32
packed_length n = to_be 4 (reverse_byte_order_uint32 (to_uint32 n))

-- The loop of `encodePayload`, with the output so far.
unfoldable pub encode_from : Bytes → List ExpirableBlob → Bytes
encode_from out [] = out
encode_from out (b ∷ payload) =
    encode_from (out ++ (as_u8 b.deletion_criterion ∷ packed_length (length b.blob) ++ b.blob))
      payload

unfoldable pub encode_payload : List ExpirableBlob → Bytes
unfolding encode_from
encode_payload payload = encode_from [] payload

unfoldable pub encode : LogicInstance → Bytes
unfolding packed_length encode_payload
encode instance =
    let app = instance.app_data in
    instance.tag
    ++ (to_be 4 (if instance.is_consumed then 0x01000000 else 0x00000000)
        ++ (instance.action_tree_root
            ++ (packed_length (length app.resource_payload)
                ++ (encode_payload app.resource_payload
                    ++ (packed_length (length app.discovery_payload)
                        ++ (encode_payload app.discovery_payload
                            ++ (packed_length (length app.external_payload)
                                ++ (encode_payload app.external_payload
                                    ++ (packed_length (length app.application_payload)
                                        ++ encode_payload app.application_payload)))))))))

-- `digest`, over a platform's SHA-256
unfoldable pub digest : Platform → LogicInstance → Bytes
digest p instance = p.sha256 (encode instance)
