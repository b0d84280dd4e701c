-- ===== src/Contracts/Decode/Agreement.antt =====
-- Where Solidity's decoder and the parsers of `constrain.rs` read the same parts of a call.
use arm_multisig_application.Base.{
  ℕ, ◌+◌, ◌*◌, ◌-◌, ◌^◌, ◌<◌, ◌≤◌, ◌≡◌, ◌∙◌, sym, ap, subst, true, false, not, List, ok, >>=-eq-ok,
  reject_if-bind, length, length-take, length-drop, take, drop, take-drop, take-append, [],
  replicate, ltb, leb, lt→ltb, All, arith,
}
use arm_multisig_application.Base.Bytes.{Bytes, IsByte, bytes_eq, eq→bytes_eq, not-bytes_eq}
use arm_multisig_application.Base.Words.{
  from_be_bytes, from_be_bytes-append, from_be_bytes-eq-zero, from_be_bytes-zeros,
}
use mathlib.Core.List.{append-nil}
use arm_multisig_application.Abi.{read_uint256, read_word, read_bytes, read_address}
use arm_multisig_application.Abi.Words.{
  slice-eq-ok, read_uint256-lt, All-take, All-drop, as_usize_fits, usize_mod_bound, add_usize_fits,
}
use arm_multisig_application.Contracts.Decode.{decode_address, decode_uint, decode_bytes}
use arm_multisig_application.Machine.{Build, slice, as_usize, usize_mod, checked_add}

slice_inside :
    {A E : Type 0} (xs : List A) (start end : ℕ)
    → start ≤ end
    → end ≤ length xs
    → slice {E = E} xs start end ≡ ok (take (end - start) (drop start xs))
unfolding slice
slice_inside xs start end h k = ground arith

length-slice :
    {A E : Type 0} (xs : List A) (start end : ℕ) {ys : List A}
    → slice {E = E} xs start end ≡ ok ys
    → length ys ≡ end - start
length-slice xs start end h =
    let (part, ordered, inside) = slice-eq-ok xs start end h in
    ap length part ∙ omega (arith, length-take (end - start) (drop start xs), length-drop start xs)

-- A word is its two halves.
halves :
    (word : Bytes)
    → length word ≡ 32
    → from_be_bytes word ≡ from_be_bytes (take 16 word) * 2 ^ 128 + from_be_bytes (drop 16 word)
halves word size =
    let low : length (drop 16 word) ≡ 16 = omega (arith, length-drop 16 word) in
    let split = from_be_bytes-append (take 16 word) (drop 16 word) in
    ap from_be_bytes (sym (take-drop 16 word)) ∙ rw low at split

take_all : {A : Type 0} (n : ℕ) (xs : List A) → length xs ≡ n → take n xs ≡ xs
take_all n xs h = subst (λ ys. take n ys ≡ xs) (append-nil xs) (take-append n xs [] h)

-- A word below 2 ^ 128 is read as the number that it is.
read_uint256_complete :
    (word : Bytes)
    → length word ≡ 32
    → from_be_bytes word < 2 ^ 128
    → read_uint256 word ≡ ok (from_be_bytes word)
unfolding read_uint256
read_uint256_complete word size small =
    let split = halves word size in
    let zero_top : from_be_bytes (take 16 word) ≡ 0 = omega (arith, split) in
    let n : length (take 16 word) ≡ 16 = omega (arith, length-take 16 word) in
    let top : take 16 word ≡ replicate 16 0 =
      from_be_bytes-eq-zero (take 16 word) zero_top ∙ ap (λ k. replicate k 0) n in
    let value : from_be_bytes word ≡ from_be_bytes (drop 16 word) = omega arith in
    let low : take 16 (drop 16 word) ≡ drop 16 word =
      take_all 16 (drop 16 word) (omega (arith, length-drop 16 word)) in
    let long : ltb (length word) 32 ≡ false = ground arith in
    rw (
      long,
      slice_inside word 0 16 (omega arith) (omega arith),
      slice_inside word 16 32 (omega arith) (omega arith),
      eq→bytes_eq (take 16 word) (replicate 16 0) top,
      low,
      value,
    )

-- A word that is read is below 2 ^ 128.
read_uint256_sound :
    (word : Bytes) {v : ℕ}
    → All IsByte word
    → length word ≡ 32
    → read_uint256 word ≡ ok v
    → (from_be_bytes word ≡ v) × (v < 2 ^ 128)
unfolding read_uint256
read_uint256_sound word {v} bytes size h =
    let (_, h₁) = reject_if-bind (ltb (length word) 32) _ _ h in
    let (top, cut_top, h₂) = >>=-eq-ok (slice word 0 16) _ h₁ in
    let (zeros, h₃) = reject_if-bind (not (bytes_eq top (replicate 16 0))) _ _ h₂ in
    let (low, cut, h₄) = >>=-eq-ok (slice word 16 32) _ h₃ in
    let (part_top, _, _) = slice-eq-ok word 0 16 cut_top in
    let (part, _, _) = slice-eq-ok word 16 32 cut in
    let top_zeros : take 16 word ≡ replicate 16 0 =
      sym part_top ∙ not-bytes_eq top (replicate 16 0) zeros in
    let same : low ≡ drop 16 word =
      part ∙ take_all 16 (drop 16 word) (omega (arith, length-drop 16 word)) in
    let zero_top : from_be_bytes (take 16 word) ≡ 0 = rw top_zeros from_be_bytes-zeros in
    let low_value : from_be_bytes (drop 16 word) ≡ v = ap from_be_bytes (sym same) ∙ ground arith in
    (omega (arith, halves word size), read_uint256-lt word bytes h)

module _ (b : Build) (blob : Bytes) where
  pub read_address-decode_address :
      (at : ℕ) {a : Bytes} → decode_address blob at ≡ ok a → read_address b blob at ≡ ok a
  unfolding decode_address read_address
  read_address-decode_address at h =
      let (padding, _, h₁) = >>=-eq-ok (slice blob at (at + 12)) _ h in
      (reject_if-bind (not (bytes_eq padding (replicate 12 0))) _ _ h₁).1

  -- The word that a number is read from.
  pub decode_uint-eq-ok :
      (at : ℕ) {v : ℕ}
      → decode_uint blob at ≡ ok v
      → (word : Bytes) × (slice {E = Unit {0}} blob at (at + 32) ≡ ok word)
        × (length word ≡ 32)
        × (from_be_bytes word ≡ v)
  unfolding decode_uint
  decode_uint-eq-ok at h =
      let (word, cut, value) = >>=-eq-ok (slice blob at (at + 32)) _ h in
      (word, cut, length-slice blob at (at + 32) cut ∙ omega arith, ground arith)

  pub read_word-decode_uint :
      (at : ℕ) {v : ℕ} → decode_uint blob at ≡ ok v → v < 2 ^ 128 → read_word b blob at ≡ ok v
  unfolding read_word
  read_word-decode_uint at {v} h small =
      let (word, cut, size, same) = decode_uint-eq-ok at h in
      rw (cut, read_uint256_complete word size (omega (arith, same)), same)

  pub decode_uint-read_word :
      (at : ℕ) {v : ℕ}
      → All IsByte blob
      → read_word b blob at ≡ ok v
      → (decode_uint blob at ≡ ok v) × (v < 2 ^ 128)
  unfolding decode_uint read_word
  decode_uint-read_word at bytes h =
      let (word, cut, value) = >>=-eq-ok (slice blob at (at + 32)) _ h in
      let (part, _, _) = slice-eq-ok blob at (at + 32) cut in
      let word_bytes : All IsByte word =
        subst (All IsByte) (sym part)
          (All-take (at + 32 - at) (drop at blob) (All-drop at blob bytes)) in
      let size : length word ≡ 32 = length-slice blob at (at + 32) cut ∙ omega arith in
      let (same, small) = read_uint256_sound word word_bytes size value in (rw (cut, same), small)

  pub read_bytes-decode_bytes :
      (offset : ℕ) {part : Bytes}
      → length blob < 2 ^ 32
      → decode_bytes blob offset ≡ ok part
      → read_bytes b blob (as_usize b offset) ≡ ok part
  unfolding decode_bytes read_bytes checked_add
  read_bytes-decode_bytes offset room h =
      let (_, h₁) = reject_if-bind (leb (2 ^ 64) offset) _ _ h in
      let (far, h₂) = reject_if-bind (leb (length blob) (offset + 31)) _ _ h₁ in
      let (len, word, h₃) = >>=-eq-ok (decode_uint blob offset) _ h₂ in
      let (_, h₄) = reject_if-bind (leb (2 ^ 64) len) _ _ h₃ in
      let (short, h₅) = reject_if-bind (ltb (length blob) (offset + 32 + len)) _ _ h₄ in
      let wide = usize_mod_bound b.target in
      let inside : offset + 32 + len ≤ length blob = ground arith in
      let (cut, got, size, same) = decode_uint-eq-ok offset word in
      let start : ltb (length blob) (offset + 32) ≡ false = ground arith in
      let fits : ltb (offset + 32 + len) (usize_mod b.target) ≡ true = lt→ltb _ _ (omega arith) in
      rw (
        as_usize_fits b offset (omega arith),
        add_usize_fits b offset 32 (omega arith),
        start,
        got,
        read_uint256_complete cut size (omega (arith, same)),
        same,
        as_usize_fits b len (omega arith),
        fits,
        short,
        h₅,
      )

pub decode_bytes-near :
    (blob : Bytes) (offset : ℕ) {part : Bytes}
    → decode_bytes blob offset ≡ ok part
    → offset < 2 ^ 64
unfolding decode_bytes
decode_bytes-near blob offset h =
    let (near, _) = reject_if-bind (leb (2 ^ 64) offset) _ _ h in ground arith
