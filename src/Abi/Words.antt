-- ===== src/Abi/Words.antt =====
-- Reading a part of a byte string that is known by what stands before and behind it.
use arm_multisig_application.Base.{
  ℕ, ◌+◌, ◌-◌, ◌^◌, ◌≤◌, ◌<◌, ◌≡◌, ◌∙◌, refl, sym, ap, true, false, List, [], ◌∷◌, ◌++◌, ok, length,
  length-append, length-drop, take, drop, take-append, drop-append, replicate, leb, ltb, arith,
  lt→ltb, All, zero, suc, not, subst, reject_if-bind, >>=-eq-ok, length-take,
}
use arm_multisig_application.Base.Bytes.{Bytes, bytes_eq, bytes_eq_refl, IsByte}
use arm_multisig_application.Base.Words.{
  to_be, length-to_be, from_be_bytes, from_be_bytes-to_be, from_be_bytes-lt,
}
use arm_multisig_application.Abi.{read_uint256, read_bytes, read_address, read_word}
use arm_multisig_application.Constants.{multisig_forwarder_address_len}
use mathlib.Core.List.{append-nil, append_assoc}
use native.Mathlib.Nat.{mod-eq_of_lt}
use arm_multisig_application.Machine.{
  Build, Target, guest, host, usize_mod, checked_add, as_usize, add_usize, slice,
}

-- The part `middle` of `before ++ middle ++ behind`.
pub slice-middle :
    {A E : Type 0} (xs before middle behind : List A) (start end : ℕ)
    → xs ≡ before ++ (middle ++ behind)
    → length before ≡ start
    → start + length middle ≡ end
    → slice {E = E} xs start end ≡ ok middle
unfolding slice
slice-middle xs before middle behind start end e hs he =
    let rest : drop start xs ≡ middle ++ behind =
      rw e (drop-append start before (middle ++ behind) hs) in
    let part : take (end - start) (drop start xs) ≡ middle =
      rw rest (take-append (end - start) middle behind (omega arith)) in
    let len : length xs ≡ length before + (length middle + length behind) = rw e (
      length-append before (middle ++ behind)
      ∙ ap (λ n. length before + n) (length-append middle behind)) in
    let ordered : leb start end ≡ true = ground arith in
    let inside : leb end (length xs) ≡ true = ground arith in rw (ordered, inside, part)

-- A 128-bit number as a 256-bit big-endian word.
unfoldable pub u256_be : ℕ → Bytes
u256_be v = replicate 16 0 ++ to_be 16 v

pub length-u256_be : (v : ℕ) → length (u256_be v) ≡ 32
unfolding u256_be
length-u256_be v = omega (arith, length-to_be 16 v)

-- A word that holds a 128-bit number is read back.
pub read_uint256-u256_be : (v : ℕ) → v < 2 ^ 128 → read_uint256 (u256_be v) ≡ ok v
unfolding read_uint256
read_uint256-u256_be v h =
    let long : ltb (length (u256_be v)) 32 ≡ false = ground (arith, length-u256_be v) in
    let n = length-to_be 16 v in
    let whole : u256_be v ≡ replicate 16 0 ++ (to_be 16 v ++ []) =
      unfold u256_be in ap (λ bs. replicate 16 0 ++ bs) (sym (append-nil (to_be 16 v))) in
    rw (
      long,
      slice-middle (u256_be v) [] (replicate 16 0) (to_be 16 v) 0 16 (unfold u256_be in refl) refl
          refl,
      slice-middle (u256_be v) (replicate 16 0) (to_be 16 v) [] 16 32 whole refl (omega arith),
      bytes_eq_refl (replicate 16 0),
      from_be_bytes-to_be 16 v h,
    )

pub All-take : (n : ℕ) (xs : Bytes) → All IsByte xs → All IsByte (take n xs)
All-take zero xs h = tt
All-take (suc n) [] h = tt
All-take (suc n) (x ∷ xs) (h, hs) = (h, All-take n xs hs)

pub All-drop : (n : ℕ) (xs : Bytes) → All IsByte xs → All IsByte (drop n xs)
All-drop zero xs h = h
All-drop (suc n) [] h = tt
All-drop (suc n) (x ∷ xs) (h, hs) = All-drop n xs hs

-- What a slice that does not panic returns.
pub slice-eq-ok :
    {A E : Type 0} (xs : List A) (start end : ℕ) {ys : List A}
    → slice {E = E} xs start end ≡ ok ys
    → (ys ≡ take (end - start) (drop start xs)) × (start ≤ end) × (end ≤ length xs)
unfolding slice
slice-eq-ok xs start end h = ground arith

-- A number that `read_uint256` returns fits 128 bits.
pub read_uint256-lt :
    (word : Bytes) {v : ℕ} → All IsByte word → read_uint256 word ≡ ok v → v < 2 ^ 128
unfolding read_uint256
read_uint256-lt word hb h =
    let (_, h₁) = reject_if-bind (ltb (length word) 32) _ _ h in
    let (top, _, h₂) = >>=-eq-ok (slice word 0 16) _ h₁ in
    let (_, h₃) = reject_if-bind (not (bytes_eq top (replicate 16 0))) _ _ h₂ in
    let (low, cut, h₄) = >>=-eq-ok (slice word 16 32) _ h₃ in
    let (part, _, inside) = slice-eq-ok word 16 32 cut in
    let bytes : All IsByte low =
      subst (All IsByte) (sym part) (All-take 16 (drop 16 word) (All-drop 16 word hb)) in
    let size : length low ≡ 16 =
      ap length part ∙ omega (arith, length-take 16 (drop 16 word), length-drop 16 word) in
    let bound : from_be_bytes low < 256 ^ 16 =
      subst (λ n. from_be_bytes low < 256 ^ n) size (from_be_bytes-lt low bytes) in
    ground arith

pub usize_mod_bound : (t : Target) → 2 ^ 32 ≤ usize_mod t
usize_mod_bound guest = omega arith
usize_mod_bound host = omega arith

module _ (b : Build) where
  pub as_usize_fits : (x : ℕ) → x < usize_mod b.target → as_usize b x ≡ x
  unfolding as_usize
  as_usize_fits x h = mod-eq_of_lt h

  pub add_usize_fits :
      {E : Type 0} (x y : ℕ) → x + y < usize_mod b.target → add_usize b {E = E} x y ≡ ok (x + y)
  unfolding add_usize
  add_usize_fits x y h = rw (lt→ltb _ _ h)

  -- A length word at `before` and the bytes behind it are read.
  pub read_bytes-middle :
      (blob before middle behind : Bytes) (offset : ℕ)
      → blob ≡ before ++ (u256_be (length middle) ++ (middle ++ behind))
      → length before ≡ offset
      → offset + 32 + length middle < 2 ^ 32
      → read_bytes b blob offset ≡ ok middle
  unfolding read_bytes checked_add
  read_bytes-middle blob before middle behind offset e ho fits =
      let word = u256_be (length middle) in
      let size : length blob ≡ offset + (32 + (length middle + length behind)) =
        ap length e
        ∙ omega (
          arith,
          length-append before (word ++ (middle ++ behind)),
          length-append word (middle ++ behind),
          length-append middle behind,
          length-u256_be (length middle),
        ) in
      let room = usize_mod_bound b.target in
      let long : ltb (length blob) (offset + 32) ≡ false = ground arith in
      let whole : ltb (length blob) (offset + 32 + length middle) ≡ false = ground arith in
      let fits' : ltb (offset + 32 + length middle) (usize_mod b.target) ≡ true =
        lt→ltb _ _ (omega arith) in
      rw
        (
          add_usize_fits offset 32 (omega arith),
          long,
          slice-middle blob before word (middle ++ behind) offset (offset + 32) e ho
              (omega (arith, length-u256_be (length middle))),
          read_uint256-u256_be (length middle) (omega arith),
          as_usize_fits (length middle) (omega arith),
          fits',
          whole,
        )
        (slice-middle blob (before ++ word) middle behind (offset + 32)
          (offset + 32 + length middle) (e ∙ sym (append_assoc before word (middle ++ behind)))
          (omega (arith, length-append before word, length-u256_be (length middle))) refl)

  -- What is read as an address has the length of one.
  pub length-read_address :
      (blob : Bytes) (at : ℕ) {address : Bytes}
      → read_address b blob at ≡ ok address
      → length address ≡ multisig_forwarder_address_len
  unfolding read_address
  length-read_address blob at h =
      let (part, ordered, inside) = slice-eq-ok blob (at + 12) (at + 32) h in
      ap length part
      ∙ omega (
        arith,
        length-take (at + 32 - (at + 12)) (drop (at + 12) blob),
        length-drop (at + 12) blob,
      )

  -- The address in a word with 12 bytes of padding.
  pub read_address-middle :
      (blob before address behind : Bytes) (at : ℕ)
      → blob ≡ before ++ (replicate 12 0 ++ (address ++ behind))
      → length before ≡ at
      → length address ≡ 20
      → read_address b blob at ≡ ok address
  unfolding read_address
  read_address-middle blob before address behind at e hb ha =
      slice-middle blob (before ++ replicate 12 0) address behind (at + 12) (at + 32)
        (e ∙ sym (append_assoc before (replicate 12 0) (address ++ behind)))
        (omega (arith, length-append {0} {A = ℕ} before (replicate 12 0))) (omega arith)

  -- The number in a word.
  pub read_word-middle :
      (blob before behind : Bytes) (v at : ℕ)
      → blob ≡ before ++ (u256_be v ++ behind)
      → length before ≡ at
      → v < 2 ^ 128
      → read_word b blob at ≡ ok v
  unfolding read_word
  read_word-middle blob before behind v at e hb hv =
      rw
        (slice-middle blob before (u256_be v) behind at (at + 32) e hb
          (omega (arith, length-u256_be v)))
        (read_uint256-u256_be v hv)
