-- ===== src/Fixtures/Deterministic.antt =====
-- What `TestVault::deterministic` makes.
use arm_multisig_application.Base.{
  ℕ, ◌+◌, ◌%◌, ◌≡◌, refl, subst, List, [], ◌∷◌, ◌++◌, Outcome, ok, err, panic, >>=-eq-ok, map,
  length, replicate, arith,
}
use arm_multisig_application.Base.Bytes.{Bytes}
use arm_multisig_application.Fixtures.Signer.{Signer}
use arm_multisig_application.Fixtures.Vault.{
  Host, TestVault, test_token, expect_label, insert_signer, sort_signers, test_key, deterministic,
}
use arm_multisig_application.Label
use arm_multisig_application.Label.{
  LabelPreimage, LabelError, absorb, label_ref, nullifier_key_domain,
}
use arm_multisig_application.Label.New.{IsPolicy, new-IsPolicy}
use arm_multisig_application.Platform.{Platform}

length-insert_signer :
    (p : Platform) (s : Signer p) (sk : s.SigningKey) (sks : List s.SigningKey)
    → length (insert_signer p s sk sks) ≡ length sks + 1
unfolding insert_signer
length-insert_signer p s sk [] = refl
length-insert_signer p s sk (x ∷ sks) = ground (arith, length-insert_signer p s sk sks)

length-sort_signers :
    (p : Platform) (s : Signer p) (sks : List s.SigningKey)
    → length (sort_signers p s sks) ≡ length sks
unfolding sort_signers
length-sort_signers p s [] = refl
length-sort_signers p s (sk ∷ sks) =
    omega (arith, length-insert_signer p s sk (sort_signers p s sks), length-sort_signers p s sks)

-- What `deterministic` makes: a 2-of-3 policy of the signers' keys, and the keys of its label.
pub record IsVault (p : Platform) (s : Signer p) (h : Host p s) (v : TestVault p s) : Type 0 where
  pub salt : Bytes
  pub policy : IsPolicy p test_token 2 v.pubkeys salt v.label
  pub pubkeys : v.pubkeys ≡ map s.public_key v.signers
  pub three : length v.signers ≡ 3
  pub nf_key :
      v.nf_key ≡ h.nf_key_from_bytes (p.sha256 (nullifier_key_domain ++ Label.encode v.label))
  pub nk_commitment : v.nk_commitment ≡ p.commit v.nf_key

expect_label-eq-ok :
    {E : Type 0} (m : Outcome LabelError LabelPreimage) {l : LabelPreimage}
    → expect_label {E = E} m ≡ ok l
    → m ≡ ok l
expect_label-eq-ok (ok x) h = cc h
expect_label-eq-ok (err e) h = cc h
expect_label-eq-ok panic h = cc h

module _ (p : Platform) (s : Signer p) (h : Host p s) where
  pub deterministic-IsVault :
      {E : Type 0} (seed : ℕ) {v : TestVault p s}
      → deterministic p s h {E = E} seed ≡ ok v
      → IsVault p s h v
  unfolding deterministic
  deterministic-IsVault seed made =
      let (key₀, _, h₁) = >>=-eq-ok (test_key p s h seed 0) _ made in
      let (key₁, _, h₂) = >>=-eq-ok (test_key p s h seed 1) _ h₁ in
      let (key₂, _, h₃) = >>=-eq-ok (test_key p s h seed 2) _ h₂ in
      let signers = sort_signers p s (key₀ ∷ key₁ ∷ key₂ ∷ []) in
      let salt : Bytes = (seed + 1) % 256 ∷ replicate 31 0 in
      let (label, labelled, last) =
        >>=-eq-ok (expect_label (Label.new p test_token 2 (map s.public_key signers) salt)) _ h₃ in
      subst (IsVault p s h) (cc last) (record {
        salt = salt;
        policy =
            (new-IsPolicy p test_token 2 (map s.public_key signers) salt label).0
              (expect_label-eq-ok _ labelled);
        pubkeys = refl;
        three = length-sort_signers p s (key₀ ∷ key₁ ∷ key₂ ∷ []);
        nf_key = refl;
        nk_commitment = refl;
      })
