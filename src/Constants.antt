-- ===== src/Constants.antt =====
-- `constants.rs` of multisig-core.
use arm_multisig_application.Base.{ℕ}

-- `MULTISIG_FORWARDER_ADDRESS_LEN`, `WRAP_FORWARDER_ADDRESS_LEN`
abbrev pub multisig_forwarder_address_len : ℕ
multisig_forwarder_address_len = 20

abbrev pub wrap_forwarder_address_len : ℕ
wrap_forwarder_address_len = 20

-- `WRAP_FORWARDER_OP_WRAP`
abbrev pub wrap_forwarder_op_wrap : ℕ
wrap_forwarder_op_wrap = 0
