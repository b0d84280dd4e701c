-- ===== src/Label.antt =====
-- `label.rs` of multisig-core: the label preimage of a vault, its encoding, and what is derived
-- from it.
pub mod Layout
pub mod New
pub mod Refusal
use arm_multisig_application.Base.{
  ℕ, ◌+◌, not, ◌&&◌, ◌||◌, List, [], ◌∷◌, ◌++◌, Outcome, ok, ◌>>◌, reject_if, length, take, drop,
  replicate, ltb, leb, ◌==◌, codes,
}
use arm_multisig_application.Base.Bytes.{Bytes, bytes_eq, bytes_lt}
use arm_multisig_application.Platform.{Platform}

abbrev pub multisig_domain : Bytes
multisig_domain = codes "anoma.multisig.v1"

abbrev pub nullifier_key_domain : Bytes
nullifier_key_domain = codes "anoma.multisig.v1.nfk-key"

abbrev pub preimage_len : ℕ
preimage_len = 17 + 20 + 1 + 1 + 32 + 32

pub data LabelError : Type 0 where
  invalid_n : ℕ → LabelError
  invalid_k : ℕ → ℕ → LabelError
  pubkey_count_mismatch : ℕ → ℕ → LabelError
  zero_salt : LabelError
  unsorted_pubkeys : LabelError
  invalid_pubkey_length : LabelError

pub record LabelPreimage : Type 0 where
  pub token_addr : Bytes
  pub n : ℕ
  pub k : ℕ
  pub pubkey_root : Bytes
  pub salt : Bytes

-- `for w in pubkeys.windows(2) { if w[0] >= w[1] { return Err(e) } }`
unfoldable pub check_sorted : {E : Type 0} → E → List Bytes → Outcome E (Unit {0})
check_sorted e [] = ok tt
check_sorted e (x ∷ []) = ok tt
check_sorted e (x ∷ y ∷ rest) = do reject_if (not (bytes_lt x y)) e; check_sorted e (y ∷ rest)

-- What a hasher has taken in after `for x in xs { hasher.update(x) }`.
unfoldable pub absorb : Bytes → List Bytes → Bytes
absorb taken [] = taken
absorb taken (x ∷ xs) = absorb (taken ++ x) xs

-- `out[o..o + src.len()].copy_from_slice(src)`
copy_at : Bytes → ℕ → Bytes → Bytes
copy_at out o src = take o out ++ (src ++ drop (o + length src) out)

-- The 103 bytes, written field by field into a zeroed array at a running offset.
unfoldable pub encode : LabelPreimage → Bytes
unfolding copy_at
encode label =
    let out : Bytes = replicate preimage_len 0 in
    let o : ℕ = 0 in
    let out = copy_at out o multisig_domain in
    let o = o + length multisig_domain in
    let out = copy_at out o label.token_addr in
    let o = o + 20 in
    let out = copy_at out o (label.n ∷ []) in
    let o = o + 1 in
    let out = copy_at out o (label.k ∷ []) in
    let o = o + 1 in
    let out = copy_at out o label.pubkey_root in let o = o + 32 in copy_at out o label.salt

module _ (p : Platform) where
  unfoldable pub pubkey_root_of : List Bytes → Bytes
  pubkey_root_of sorted_pubkeys = p.sha256 (absorb [] sorted_pubkeys)

  -- `LabelPreimage::new`
  unfoldable pub new : Bytes → ℕ → List Bytes → Bytes → Outcome LabelError LabelPreimage
  new token_addr k pubkeys salt = do
    let n = length pubkeys
    reject_if (leb 256 n) (invalid_n 0)
    reject_if (not (leb 1 n && leb n 32)) (invalid_n n)
    reject_if (k == 0 || ltb n k) (invalid_k k n)
    reject_if (bytes_eq salt (replicate 32 0)) zero_salt
    check_sorted unsorted_pubkeys pubkeys
    ok (record {
      token_addr = token_addr;
      n = n;
      k = k;
      pubkey_root = pubkey_root_of pubkeys;
      salt = salt;
    })

  unfoldable pub label_ref : LabelPreimage → Bytes
  label_ref label = p.sha256 (encode label)

  unfoldable pub nullifier_key : LabelPreimage → Bytes
  nullifier_key label = p.sha256 (nullifier_key_domain ++ encode label)

  unfoldable pub nullifier_key_commitment : LabelPreimage → Bytes
  nullifier_key_commitment label = p.sha256 (nullifier_key label)
