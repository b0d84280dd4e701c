-- ===== src/Fixtures/Signing.antt =====
-- What the host signs is accepted by the circuit.
use arm_multisig_application.Base.{
  ◌⊎◌, inl, inr, ap₂, ℕ, ◌%◌, ◌^◌, ◌≤◌, ◌<◌, ◌≡◌, refl, Option, none, some, List, [], ◌∷◌, ok, map,
  length, get_elem?, All, arith, zero, suc, ap,
}
use arm_multisig_application.Base.Bytes.{Bytes}
use arm_multisig_application.Constrain.Consumed.Spec.{Signed}
use arm_multisig_application.Constrain.Consumed.Refinement.{eq-some-index}
use arm_multisig_application.Fixtures.Signer.{
  Signer, IsSigner, unwrap_or, sign_low_s_der, sign_slots,
}
use arm_multisig_application.Platform.{Platform}
use arm_multisig_application.Sig.{verify_secp256k1}
use arm_multisig_application.Witness.{SignerSlot}
use native.Mathlib.Nat.{mod-eq_of_lt}

Option-cases : {A : Type 0} (o : Option A) → (o ≡ none) ⊎ ((a : A) × (o ≡ some a))
Option-cases none = inl refl
Option-cases (some a) = inr (a, refl)

get_elem?-in_range :
    {A : Type 0} (xs : List A) (i : ℕ) → i < length xs → (x : A) × (get_elem? xs i ≡ some x)
get_elem?-in_range [] i h = absurd (omega arith)
get_elem?-in_range (x ∷ xs) zero h = (x, refl)
get_elem?-in_range (x ∷ xs) (suc i) h = get_elem?-in_range xs i (omega arith)

get_elem?-map :
    {A B : Type 0} (f : A → B) (xs : List A) (i : ℕ) {x : A}
    → get_elem? xs i ≡ some x
    → get_elem? (map f xs) i ≡ some (f x)
get_elem?-map f [] i h = cc
get_elem?-map f (x ∷ xs) zero h = ground arith
get_elem?-map f (x ∷ xs) (suc i) h = get_elem?-map f xs i h

module _ (p : Platform) (s : Signer p) (law : IsSigner p s) where
  sign_low_s_der-unwrap_or :
      (sk : s.SigningKey) (msg : Bytes) {o : Option p.Signature}
      → p.normalize_s (s.sign_digest sk msg) ≡ o
      → sign_low_s_der p s sk msg ≡ s.to_der (unwrap_or o (s.sign_digest sk msg))
  unfolding sign_low_s_der
  sign_low_s_der-unwrap_or sk msg e = ap (λ o. s.to_der (unwrap_or o (s.sign_digest sk msg))) e

  -- The host's signature of `msg` passes the circuit's check.
  pub verify_secp256k1-sign_low_s_der :
      (sk : s.SigningKey) (msg : Bytes)
      → verify_secp256k1 p (s.public_key sk) msg (sign_low_s_der p s sk msg) ≡ ok tt
  unfolding verify_secp256k1
  verify_secp256k1-sign_low_s_der sk msg =
      let sig = s.sign_digest sk msg in
      let valid = law.verifies sk msg in
      let key = law.from_sec1_bytes-public_key sk in
      elim (Option-cases (p.normalize_s sig)) [
        | inl e ↦
            rw (sign_low_s_der-unwrap_or sk msg e, key, law.from_der-to_der sig, e, valid) refl
        | inr (low, e) ↦
            rw
              (
                sign_low_s_der-unwrap_or sk msg e,
                key,
                law.from_der-to_der low,
                law.low_form sig low e,
                law.low_verifies (law.verifying_key sk) msg sig low e valid,
              )
              refl
      ]

  -- Signing at indices in range returns slots with these indices and with valid signatures.
  pub sign_slots_lem :
      (E : Type 0) (signers : List s.SigningKey) (msg : Bytes) (indices : List ℕ)
      → length signers ≤ 2 ^ 32
      → All (λ i. i < length signers) indices
      → (slots : List SignerSlot) × (sign_slots p s {E = E} signers msg indices ≡ ok slots)
        × (map (λ t. t.idx) slots ≡ indices)
        × All (Signed p (map s.public_key signers) msg) slots
  unfolding sign_slots
  sign_slots_lem E signers msg [] small h = ([], refl, refl, tt)
  sign_slots_lem E signers msg (i ∷ indices) small (here, rest) =
      let (slots, made, idxs, signed) = sign_slots_lem E signers msg indices small rest in
      let (sk, at) = get_elem?-in_range signers i here in
      let narrow : i % 2 ^ 32 ≡ i = mod-eq_of_lt (omega arith) in
      (
        record { idx = i % 2 ^ 32; sig_der = sign_low_s_der p s sk msg } ∷ slots,
        rw (eq-some-index signers i at, made) refl,
        ap₂ ◌∷◌ narrow idxs,
        (
          (
            s.public_key sk,
            rw narrow (get_elem?-map s.public_key signers i at),
            verify_secp256k1-sign_low_s_der sk msg,
          ),
          signed,
        ),
      )
