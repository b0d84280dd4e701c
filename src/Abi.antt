-- ===== src/Abi.antt =====
-- The parsers at the end of `constrain.rs`: ABI-encoded forwarder calls. `None` is `err tt`; a
-- panic is kept apart from it.
pub mod Words
pub mod Panics
pub mod Returns
pub mod Exact
use arm_multisig_application.Base.{
  ℕ, ◌+◌, not, Outcome, ok, ◌>>=◌, ◌>>◌, reject_if, some_or, length, replicate, ltb,
}
use arm_multisig_application.Base.Bytes.{Bytes, bytes_eq}
use arm_multisig_application.Base.Words.{from_be_bytes}
use arm_multisig_application.Machine.{
  Build, usize_mod, checked_add, as_usize, add_usize, slice, index,
}

-- The result of a parser that returns an `Option`.
abbrev pub Parse : Type 0 → Type 0
Parse A = Outcome (Unit {0}) A

pub record ParsedExternalCall : Type 0 where
  pub forwarder : Bytes
  pub input : Bytes
  pub expected : Bytes

pub record MultisigInput : Type 0 where
  pub token : Bytes
  pub recipient : Bytes
  pub amount : ℕ
  pub expected : Bytes

pub record WrapInput : Type 0 where
  pub op : ℕ
  pub token : Bytes
  pub from : Bytes
  pub amount : ℕ
  pub expected : Bytes

unfoldable pub read_uint256 : Bytes → Parse ℕ
read_uint256 word = do
  reject_if (ltb (length word) 32) tt
  top ← slice word 0 16
  reject_if (not (bytes_eq top (replicate 16 0))) tt
  low ← slice word 16 32
  ok (from_be_bytes low)

module _ (b : Build) where
  unfoldable pub read_bytes : Bytes → ℕ → Parse Bytes
  read_bytes blob offset = do
    data_start ← add_usize b offset 32
    reject_if (ltb (length blob) data_start) tt
    word ← slice blob offset data_start
    len ← read_uint256 word
    data_end ← some_or (checked_add (usize_mod b.target) data_start (as_usize b len)) tt
    reject_if (ltb (length blob) data_end) tt
    slice blob data_start data_end

  -- `&blob[at + 12..at + 32]`, an address at the right end of its word
  unfoldable pub read_address : Bytes → ℕ → Parse Bytes
  read_address blob at = slice blob (at + 12) (at + 32)

  -- `read_uint256(&blob[at..at + 32])?`
  unfoldable pub read_word : Bytes → ℕ → Parse ℕ
  read_word blob at = do word ← slice blob at (at + 32); read_uint256 word

  unfoldable pub parse_external_call : Bytes → Parse ParsedExternalCall
  unfolding read_address read_word
  parse_external_call blob = do
    reject_if (ltb (length blob) 96) tt
    forwarder ← read_address blob 0
    input_off ← read_word blob 32
    expected_off ← read_word blob 64
    input ← read_bytes blob (as_usize b input_off)
    expected ← read_bytes blob (as_usize b expected_off)
    ok (record { forwarder = forwarder; input = input; expected = expected })

  unfoldable pub parse_multisig_call_input : Bytes → Parse MultisigInput
  unfolding read_address read_word
  parse_multisig_call_input input = do
    reject_if (ltb (length input) 128) tt
    token ← read_address input 0
    recipient ← read_address input 32
    amount ← read_word input 64
    expected_off ← read_word input 96
    expected ← read_bytes input (as_usize b expected_off)
    ok (record { token = token; recipient = recipient; amount = amount; expected = expected })

  unfoldable pub parse_wrap_call_input : Bytes → Parse WrapInput
  unfolding read_address read_word
  parse_wrap_call_input input = do
    reject_if (ltb (length input) 160) tt
    op_word ← slice input 0 32
    op_top ← slice op_word 0 31
    reject_if (not (bytes_eq op_top (replicate 31 0))) tt
    op ← index op_word 31
    token ← read_address input 32
    from ← read_address input 64
    amount ← read_word input 96
    expected_off ← read_word input 128
    expected ← read_bytes input (as_usize b expected_off)
    ok (record { op = op; token = token; from = from; amount = amount; expected = expected })
