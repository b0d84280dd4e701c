-- ===== src/Abi/Exact.antt =====
-- The parsers without machine integers, and where the machine's agree with them.
use arm_multisig_application.Base.{
  ℕ, ◌+◌, ◌-◌, ok_unique, ◌^◌, ◌<◌, ◌≤◌, ◌≡◌, ◌∙◌, refl, sym, true, not, ok, ◌>>=◌, ◌>>◌, reject_if,
  some_or, reject_if-bind, >>=-eq-ok, length-take, length-drop, drop, >>=-congr, >>=-assoc,
  reject_if-congr, length, replicate, ltb, Bool-cases, inl, inr, arith, ap,
}
use arm_multisig_application.Base.Bytes.{Bytes, bytes_eq}
use arm_multisig_application.Abi.{
  Parse, ParsedExternalCall, MultisigInput, WrapInput, read_uint256, read_bytes, read_address,
  read_word, parse_external_call, parse_multisig_call_input, parse_wrap_call_input,
}
use arm_multisig_application.Abi.Words.{slice-eq-ok, usize_mod_bound, as_usize_fits, add_usize_fits}
use arm_multisig_application.Machine.{Build, usize_mod, checked_add, as_usize, slice, index}

-- The number in the 32 bytes at `at`.
abbrev pub exact_word : Bytes → ℕ → Parse ℕ
exact_word blob at = do word ← slice blob at (at + 32); read_uint256 word

abbrev pub exact_address : Bytes → ℕ → Parse Bytes
exact_address blob at = slice blob (at + 12) (at + 32)

-- The length-prefixed part at `offset`: nothing overflows and nothing is cut off.
abbrev pub exact_bytes : Bytes → ℕ → Parse Bytes
exact_bytes blob offset = do
  reject_if (ltb (length blob) (offset + 32)) tt
  len ← exact_word blob offset
  reject_if (ltb (length blob) (offset + 32 + len)) tt
  slice blob (offset + 32) (offset + 32 + len)

abbrev pub exact_call : Bytes → Parse ParsedExternalCall
exact_call blob = do
  reject_if (ltb (length blob) 96) tt
  forwarder ← exact_address blob 0
  input_off ← exact_word blob 32
  expected_off ← exact_word blob 64
  input ← exact_bytes blob input_off
  expected ← exact_bytes blob expected_off
  ok (record { forwarder = forwarder; input = input; expected = expected })

abbrev pub exact_multisig_input : Bytes → Parse MultisigInput
exact_multisig_input input = do
  reject_if (ltb (length input) 128) tt
  token ← exact_address input 0
  recipient ← exact_address input 32
  amount ← exact_word input 64
  expected_off ← exact_word input 96
  expected ← exact_bytes input expected_off
  ok (record { token = token; recipient = recipient; amount = amount; expected = expected })

abbrev pub exact_wrap_input : Bytes → Parse WrapInput
exact_wrap_input input = do
  reject_if (ltb (length input) 160) tt
  op_word ← slice input 0 32
  op_top ← slice op_word 0 31
  reject_if (not (bytes_eq op_top (replicate 31 0))) tt
  op ← index op_word 31
  token ← exact_address input 32
  from ← exact_address input 64
  amount ← exact_word input 96
  expected_off ← exact_word input 128
  expected ← exact_bytes input expected_off
  ok (record { op = op; token = token; from = from; amount = amount; expected = expected })

-- The offset at `at` and the length that it leads to fit 32 bits, and the offset's word ends below
-- 2 ^ 32.
abbrev pub PartFits : Bytes → ℕ → Type 0
PartFits blob at =
    (offset : ℕ)
    → exact_word blob at ≡ ok offset
    → (offset + 32 < 2 ^ 32) × ((len : ℕ) → exact_word blob offset ≡ ok len → len < 2 ^ 32)

-- A part is no longer than the blob that it is read from.
length-exact_bytes :
    (blob : Bytes) (offset : ℕ) {part : Bytes}
    → exact_bytes blob offset ≡ ok part
    → length part ≤ length blob
length-exact_bytes blob offset h =
    let (_, h₁) = reject_if-bind (ltb (length blob) (offset + 32)) _ _ h in
    let (len, _, h₂) = >>=-eq-ok (exact_word blob offset) _ h₁ in
    let (_, h₃) = reject_if-bind (ltb (length blob) (offset + 32 + len)) _ _ h₂ in
    let (same, _, _) = slice-eq-ok blob (offset + 32) (offset + 32 + len) h₃ in
    omega (
      arith,
      ap length same,
      length-take (offset + 32 + len - (offset + 32)) (drop (offset + 32) blob),
      length-drop (offset + 32) blob,
    )

pub length-exact_call :
    (blob : Bytes) {parsed : ParsedExternalCall}
    → exact_call blob ≡ ok parsed
    → length parsed.input ≤ length blob
length-exact_call blob h =
    let (_, h₁) = reject_if-bind (ltb (length blob) 96) _ _ h in
    let (_, _, h₂) = >>=-eq-ok (exact_address blob 0) _ h₁ in
    let (i, _, h₃) = >>=-eq-ok (exact_word blob 32) _ h₂ in
    let (e, _, h₄) = >>=-eq-ok (exact_word blob 64) _ h₃ in
    let (input, read, h₅) = >>=-eq-ok (exact_bytes blob i) _ h₄ in
    let (_, _, last) = >>=-eq-ok (exact_bytes blob e) _ h₅ in
    omega (arith, ap (λ c. length c.input) (ok_unique refl last), length-exact_bytes blob i read)

-- A call whose offsets and lengths fit 32 bits.
pub record CallFits (blob : Bytes) : Type 0 where
  pub size : length blob < 2 ^ 32
  pub input : PartFits blob 32
  pub expected : PartFits blob 64

module _ (b : Build) (blob : Bytes) (size : length blob < 2 ^ 32) where
  -- The part's end is found alike: one that is not a `usize` is past the end of the blob.
  part_end :
      (start len : ℕ)
      → len < 2 ^ 32
      → (do
        data_end ← some_or (checked_add (usize_mod b.target) start (as_usize b len)) tt
        reject_if (ltb (length blob) data_end) tt
        slice {E = Unit {0}} blob start data_end)
        ≡ (do reject_if (ltb (length blob) (start + len)) tt; slice blob start (start + len))
  unfolding checked_add
  part_end start len small =
      let room = usize_mod_bound b.target in
      elim (Bool-cases (ltb (start + len) (usize_mod b.target))) [
        | inl e ↦ rw (as_usize_fits b len (omega arith), e) refl
        | inr e ↦
            let past : ltb (length blob) (start + len) ≡ true = ground arith in
            rw (as_usize_fits b len (omega arith), e, past) refl
      ]

  -- A part is read as if integers had no width.
  read_bytes-exact :
      (offset : ℕ)
      → offset + 32 < 2 ^ 32
      → ((len : ℕ) → exact_word blob offset ≡ ok len → len < 2 ^ 32)
      → read_bytes b blob (as_usize b offset) ≡ exact_bytes blob offset
  unfolding read_bytes
  read_bytes-exact offset fits small =
      let room = usize_mod_bound b.target in
      let start = offset + 32 in
      rw
        (
          as_usize_fits b offset (omega arith),
          add_usize_fits b {E = Unit {0}} offset 32 (omega arith),
        )
        (reject_if-congr (ltb (length blob) start) tt (λ _.
          >>=-congr (slice blob offset start) (λ word cut.
            >>=-congr (read_uint256 word)
              (λ len read. part_end start len (small len (rw cut read))))
          ∙ sym (>>=-assoc (slice blob offset start) read_uint256 _)))

  pub parse_external_call-exact :
      PartFits blob 32 → PartFits blob 64 → parse_external_call b blob ≡ exact_call blob
  unfolding parse_external_call read_address read_word
  parse_external_call-exact in_ ex = reject_if-congr (ltb (length blob) 96) tt (λ _.
      >>=-congr (exact_address blob 0) (λ forwarder _. >>=-congr (exact_word blob 32) (λ i at_i.
        >>=-congr (exact_word blob 64) (λ e at_e.
          rw
            (
              read_bytes-exact i (in_ i at_i).0 (in_ i at_i).1,
              read_bytes-exact e (ex e at_e).0 (ex e at_e).1,
            )
            refl))))

  pub parse_multisig_call_input-exact :
      PartFits blob 96 → parse_multisig_call_input b blob ≡ exact_multisig_input blob
  unfolding parse_multisig_call_input read_address read_word
  parse_multisig_call_input-exact ex = reject_if-congr (ltb (length blob) 128) tt (λ _.
      >>=-congr (exact_address blob 0) (λ token _. >>=-congr (exact_address blob 32) (λ recipient _.
        >>=-congr (exact_word blob 64) (λ amount _.
          >>=-congr (exact_word blob 96)
            (λ e at_e. rw (read_bytes-exact e (ex e at_e).0 (ex e at_e).1) refl)))))

  pub parse_wrap_call_input-exact :
      PartFits blob 128 → parse_wrap_call_input b blob ≡ exact_wrap_input blob
  unfolding parse_wrap_call_input read_address read_word
  parse_wrap_call_input-exact ex = reject_if-congr (ltb (length blob) 160) tt (λ _.
      >>=-congr (slice blob 0 32) (λ word _. >>=-congr (slice word 0 31) (λ top _.
        reject_if-congr (not (bytes_eq top (replicate 31 0))) tt (λ _.
          >>=-congr (index word 31) (λ op _. >>=-congr (exact_address blob 32) (λ token _.
            >>=-congr (exact_address blob 64) (λ from _. >>=-congr (exact_word blob 96) (λ amount _.
              >>=-congr (exact_word blob 128)
                (λ e at_e. rw (read_bytes-exact e (ex e at_e).0 (ex e at_e).1) refl)))))))))
