-- ===== src/Examples/Toy.antt =====
-- A platform whose digests are numbers below 2 ^ 256 written in 32 bytes and whose hash is a
-- checksum. It is lawful, and it runs.
use arm_multisig_application.Base.{
  ℕ, ◌+◌, ◌*◌, ◌%◌, ◌^◌, ◌<◌, arith, Bool, Option, some, none, [], ◌∷◌, ◌++◌, length, ◌==◌, ==_iff,
  if◌then◌else◌,
}
use arm_multisig_application.Base.Bytes.{Bytes, bytes_eq, bytes_eq→eq, eq→bytes_eq}
use arm_multisig_application.Base.Words.{to_be, length-to_be}
use arm_multisig_application.Platform.{Platform, Resource, IsLawful}

checksum : ℕ → Bytes → ℕ
checksum acc [] = acc
checksum acc (b ∷ bs) = checksum ((acc * 257 + b + 1) % 2 ^ 61) bs

unfoldable pub toy_hash : Bytes → ℕ
unfolding checksum
toy_hash bs = checksum 7 bs

checksum-lt : (acc : ℕ) (bs : Bytes) → acc < 2 ^ 61 → checksum acc bs < 2 ^ 61
unfolding checksum
checksum-lt acc [] h = h
checksum-lt acc (b ∷ bs) h = checksum-lt ((acc * 257 + b + 1) % 2 ^ 61) bs (omega arith)

pub toy_hash-lt : (bs : Bytes) → toy_hash bs < 2 ^ 61
unfolding toy_hash
toy_hash-lt bs = checksum-lt 7 bs (omega arith)

unfoldable pub toy_sha256 : Bytes → Bytes
unfolding toy_hash to_be
toy_sha256 bs = to_be 32 (toy_hash bs)

abbrev pub ToyResource : Type 0
ToyResource = Resource ℕ Bytes

-- The commitment mixes every field.
unfoldable pub toy_commitment : ToyResource → ℕ
unfolding toy_hash to_be
toy_commitment r = toy_hash (
    to_be 32 r.logic_ref
    ++ (to_be 32 r.label_ref
        ++ (to_be 16 r.quantity
            ++ (to_be 32 r.value_ref
                ++ ((if r.is_ephemeral then 1 else 0) ∷ []
                    ++ (r.nonce ++ (r.nk_commitment ++ r.rand_seed)))))))

unfoldable pub toy_tag : ToyResource → Bool → Bytes → Option ℕ
unfolding toy_commitment toy_hash
toy_tag r is_consumed key =
    some (if is_consumed then toy_hash (to_be 32 (toy_commitment r) ++ key) else toy_commitment r)

-- A signature of `msg` by `key` is the checksum of both.
unfoldable pub toy_sign : Bytes → Bytes → Bytes
unfolding toy_sha256
toy_sign key msg = toy_sha256 (key ++ msg)

unfoldable pub toy_key : Bytes → Option Bytes
toy_key bs = if length bs == 33 then some bs else none

unfoldable pub toy_verify : Bytes → Bytes → Bytes → Bool
unfolding toy_sign bytes_eq
toy_verify key msg sig = bytes_eq sig (toy_sign key msg)

abbrev pub toy : Platform
toy = record {
  Digest = ℕ;
  as_bytes = λ d. to_be 32 d;
  digest_eq = λ c d. c == d;
  sha256 = toy_sha256;
  NullifierKey = Bytes;
  NullifierKeyCommitment = Bytes;
  inner = λ key. key;
  commit = toy_sha256;
  nk_commitment_eq = bytes_eq;
  commitment = toy_commitment;
  tag = toy_tag;
  VerifyingKey = Bytes;
  Signature = Bytes;
  from_sec1_bytes = toy_key;
  from_der = λ bs. some bs;
  normalize_s = λ sig. none;
  verify_digest = toy_verify;
}

pub toy-IsLawful : IsLawful toy
unfolding toy_sha256
toy-IsLawful = record {
  length-as_bytes = λ d. length-to_be 32 d;
  length-sha256 = λ bs. length-to_be 32 (toy_hash bs);
  digest_eq_iff = ==_iff;
  nk_commitment_eq_iff = λ c d. (bytes_eq→eq c d, eq→bytes_eq c d);
}
