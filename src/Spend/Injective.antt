-- ===== src/Spend/Injective.antt =====
-- The bytes that are signed determine the journal digest and the recipients.
use arm_multisig_application.Base.{
  ℕ, ◌^◌, ◌<◌, ◌≡◌, ◌∙◌, refl, sym, ap₂, List, [], ◌∷◌, ok, length, All, arith, append_inj,
  Bool-cases, inl, inr,
}
use arm_multisig_application.Base.Bytes.{Bytes, bytes_lt}
use arm_multisig_application.Journal.Injective.{length_prefix_inj}
use arm_multisig_application.Sig.{k_domain_sep}
use arm_multisig_application.Spend.{insert, sort, new, spend_preimage}
use arm_multisig_application.Spend.Message.{
  message_bytes, length-sort, sort-perm, spend_preimage-bytes, spend_preimage-counted,
}
use mathlib.Core.List.{flatten, Perm}
use mathlib.Core.List.Perm

abbrev pub IsDigest : Bytes → Type 0
IsDigest bs = length bs ≡ 32

All-insert :
    (x : Bytes) (xs : List Bytes) → IsDigest x → All IsDigest xs → All IsDigest (insert x xs)
unfolding insert
All-insert x [] h hs = (h, tt)
All-insert x (y ∷ ys) h (k, ks) = elim (Bool-cases (bytes_lt y x)) [
  | inl e ↦ rw (e, insert) (k, All-insert x ys h ks)
  | inr e ↦ rw (e, insert) (h, (k, ks))
]

All-sort : (xs : List Bytes) → All IsDigest xs → All IsDigest (sort xs)
unfolding sort
All-sort [] h = tt
All-sort (x ∷ xs) (h, hs) = All-insert x (sort xs) h (All-sort xs hs)

-- Items of one length can be told apart in their concatenation, if their number is known.
pub flatten_inj :
    (n : ℕ) (xs ys : List Bytes)
    → All (λ x. length x ≡ n) xs
    → All (λ y. length y ≡ n) ys
    → length xs ≡ length ys
    → flatten xs ≡ flatten ys
    → xs ≡ ys
unfolding flatten
flatten_inj n [] [] h k eq e = refl
flatten_inj n [] (y ∷ ys) h k eq e = absurd (omega arith)
flatten_inj n (x ∷ xs) [] h k eq e = absurd (omega arith)
flatten_inj n (x ∷ xs) (y ∷ ys) (h, hs) (k, ks) eq e =
    let (first, rest) = append_inj x y (flatten xs) (flatten ys) (h ∙ sym k) e in
    ap₂ ◌∷◌ first (flatten_inj n xs ys hs ks (omega arith) rest)

-- The message's bytes determine the journal digest and the sorted recipients.
pub message_bytes_inj :
    (c d : Bytes) (xs ys : List Bytes)
    → IsDigest c
    → IsDigest d
    → All IsDigest xs
    → All IsDigest ys
    → length xs < 2 ^ 32
    → length ys < 2 ^ 32
    → message_bytes c (length xs) (sort xs) ≡ message_bytes d (length ys) (sort ys)
    → (c ≡ d) × (sort xs ≡ sort ys)
message_bytes_inj c d xs ys hc hd hx hy nx ny e =
    let (_, e₁) = append_inj k_domain_sep k_domain_sep _ _ refl e in
    let (same, e₂) = append_inj c d _ _ (hc ∙ sym hd) e₁ in
    let (n, e₃) = length_prefix_inj (length xs) (length ys) _ _ nx ny e₂ in
    (
      same,
      flatten_inj 32 (sort xs) (sort ys) (All-sort xs hx) (All-sort ys hy)
          (omega (arith, length-sort xs, length-sort ys)) e₃,
    )

-- Two spends whose signed bytes are the same have the same journal digest, and the same
-- recipient commitments up to their order, each as often; digests have 32 bytes.
pub spend_preimage_inj :
    {E : Type 0} (c d : Bytes) (xs ys : List Bytes) {bs : Bytes}
    → IsDigest c
    → IsDigest d
    → All IsDigest xs
    → All IsDigest ys
    → spend_preimage {E = E} c (new xs) ≡ ok bs
    → spend_preimage {E = E} d (new ys) ≡ ok bs
    → (c ≡ d) × Perm xs ys
spend_preimage_inj c d xs ys hc hd hx hy h k =
    let nx = spend_preimage-counted c xs h in
    let ny = spend_preimage-counted d ys k in
    let (same, sorted) =
      message_bytes_inj c d xs ys hc hd hx hy nx ny
        (cc (spend_preimage-bytes c xs nx, h, spend_preimage-bytes d ys ny, k)) in
    (same, Perm.trans (Perm.symm (sort-perm xs)) (rw sorted (sort-perm ys)))
