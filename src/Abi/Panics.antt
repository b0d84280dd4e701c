-- ===== src/Abi/Panics.antt =====
-- Where reading a length-prefixed part of a call panics.
use arm_multisig_application.Base.{
  zero, suc, [], ◌∷◌, ℕ, ◌+◌, ◌-◌, ◌%◌, ◌≤◌, ◌<◌, ◌≡◌, ◌≢◌, ◌↔◌, ◌⊎◌, ◌∙◌, ap, Bool-cases, ltb→lt,
  inl, inr, refl, Bool, true, false, not, List, Outcome, ok, err, panic, ◌>>=◌, ◌>>◌, reject_if,
  some_or, some_or_returns, length, length-take, length-drop, drop, replicate, ltb, arith,
}
use arm_multisig_application.Base.Bytes.{Bytes, bytes_eq}
use arm_multisig_application.Abi.{read_uint256, read_bytes}
use arm_multisig_application.Abi.Words.{slice-eq-ok, usize_mod_bound}
use arm_multisig_application.Machine.{
  Build, Target, guest, host, usize_mod, checked_add, as_usize, add_usize, slice, index,
}

-- A body that panics does so in its first call, or after it.
>>=-eq-panic :
    {E X Y : Type 0} (first : Outcome E X) (rest : X → Outcome E Y)
    → (first >>= rest) ≡ panic
    → (first ≡ panic) ⊎ ((x : X) × (first ≡ ok x) × (rest x ≡ panic))
>>=-eq-panic panic rest h = inl refl
>>=-eq-panic (err e) rest h = cc
>>=-eq-panic (ok x) rest h = inr (x, refl, h)

reject_if-eq-panic :
    {E A : Type 0} (b : Bool) (e : E) (m : Outcome E A)
    → (reject_if b e >> m) ≡ panic
    → (b ≡ false) × (m ≡ panic)
reject_if-eq-panic true e m h = cc
reject_if-eq-panic false e m h = (refl, h)

pub slice_returns :
    {A E : Type 0} (xs : List A) (start end : ℕ)
    → start ≤ end
    → end ≤ length xs
    → slice {E = E} xs start end ≢ panic
unfolding slice
slice_returns xs start end h k e = ground arith

pub index_returns :
    {A E : Type 0} (xs : List A) (i : ℕ) → i < length xs → index {E = E} xs i ≢ panic
unfolding index
index_returns [] i h k = absurd (omega arith)
index_returns (x ∷ xs) zero h k = cc k
index_returns (x ∷ xs) (suc i) h k = index_returns xs i (omega arith) k

-- A word of 32 bytes is a number or is refused.
pub read_uint256_returns : (word : Bytes) → length word ≡ 32 → read_uint256 word ≢ panic
unfolding read_uint256
read_uint256_returns word size h =
    let (_, h₁) = reject_if-eq-panic (ltb (length word) 32) _ _ h in
    elim (>>=-eq-panic (slice word 0 16) _ h₁) [
      | inl e ↦ slice_returns word 0 16 (omega arith) (omega arith) e
      | inr (top, _, h₂) ↦
          let (_, h₃) = reject_if-eq-panic (not (bytes_eq top (replicate 16 0))) _ _ h₂ in
          elim (>>=-eq-panic (slice word 16 32) _ h₃) [
            | inl e ↦ slice_returns word 16 32 (omega arith) (omega arith) e
            | inr (low, _, last) ↦ cc last
          ]
    ]

-- An offset that runs over comes out below 32.
wraps :
    (t : Target) (offset : ℕ)
    → offset < usize_mod t
    → usize_mod t ≤ offset + 32
    → (offset + 32) % usize_mod t < 32
wraps guest offset h k = omega arith
wraps host offset h k = omega arith

module _ (b : Build) (blob : Bytes) (offset : ℕ) where
  -- Once the length word is cut out, what follows returns.
  after_word :
      (start : ℕ) (word : Bytes)
      → offset + 32 ≡ start
      → slice {E = Unit {0}} blob offset start ≡ ok word
      → (do
        len ← read_uint256 word
        data_end ← some_or (checked_add (usize_mod b.target) start (as_usize b len)) tt
        reject_if (ltb (length blob) data_end) tt
        slice blob start data_end)
        ≢ panic
  unfolding checked_add
  after_word start word at cut h =
      let (part, ordered, inside) = slice-eq-ok blob offset start cut in
      let size : length word ≡ 32 =
        ap length part
        ∙ omega (arith, length-take (start - offset) (drop offset blob), length-drop offset blob) in
      elim (>>=-eq-panic (read_uint256 word) _ h) [
        | inl e ↦ read_uint256_returns word size e
        | inr (len, _, h₁) ↦
            elim (>>=-eq-panic (some_or (checked_add _ start (as_usize b len)) _) _ h₁) [
              | inl e ↦ some_or_returns _ _ e
              | inr (end, sum, h₂) ↦
                  let (short, h₃) = reject_if-eq-panic (ltb (length blob) end) _ _ h₂ in
                  slice_returns blob start end (ground arith) (ground arith) h₃
            ]
      ]

  overflow_panics :
      32 ≤ length blob
      → offset < usize_mod b.target
      → usize_mod b.target ≤ offset + 32
      → read_bytes b blob offset ≡ panic
  unfolding read_bytes add_usize slice
  overflow_panics long fits over =
      let room = usize_mod_bound b.target in
      let wrapped : (offset + 32) % usize_mod b.target < 32 = wraps b.target offset fits over in
      elim (Bool-cases b.overflow_checks) [ inl e ↦ ground arith | inr e ↦ ground arith ]

  pub read_bytes_returns : offset + 32 < usize_mod b.target → read_bytes b blob offset ≢ panic
  unfolding read_bytes add_usize checked_add
  read_bytes_returns fits h = elim (>>=-eq-panic (add_usize b offset 32) _ h) [
    | inl e ↦ ground arith
    | inr (start, sum, h₁) ↦
        let (inside, h₂) = reject_if-eq-panic (ltb (length blob) start) _ _ h₁ in
        let at : start ≡ offset + 32 = ground arith in
        elim (>>=-eq-panic (slice blob offset start) _ h₂) [
          | inl e ↦ slice_returns blob offset start (omega arith) (ground arith) e
          | inr (word, cut, h₃) ↦ after_word start word (ground arith) cut h₃
        ]
  ]

  -- On a part of at least 32 bytes, `read_bytes` panics exactly where its offset is so close to the
  -- end of `usize` that `offset + 32` does not fit, whether overflow checks are on or not.
  pub read_bytes-panic :
      32 ≤ length blob
      → offset < usize_mod b.target
      → (read_bytes b blob offset ≡ panic) ↔ (usize_mod b.target ≤ offset + 32)
  read_bytes-panic long fits = (
    λ h. elim (Bool-cases (ltb (offset + 32) (usize_mod b.target))) [
      | inl e ↦ absurd (read_bytes_returns (ltb→lt _ _ e) h)
      | inr e ↦ ground arith
    ],
    λ over. overflow_panics long fits over,
  )
