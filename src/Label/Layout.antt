-- ===== src/Label/Layout.antt =====
-- The label's encoding as one expression, and what determines it.
use arm_multisig_application.Base.{
  ℕ, zero, suc, ◌+◌, ◌≡◌, ◌∙◌, refl, sym, ap, List, [], ◌∷◌, ◌++◌, length, length-append, drop,
  replicate, length-replicate, take-append, drop-append, append_inj, arith,
}
use arm_multisig_application.Base.Bytes.{Bytes}
use arm_multisig_application.Label.{
  LabelPreimage, multisig_domain, preimage_len, absorb, copy_at, encode,
}
use mathlib.Core.List.{flatten, append_assoc, append-nil}
use native.Mathlib.Nat.{zero-add, suc-add}

-- The hasher's bytes are those of the items, one after the other.
pub absorb-flatten : (taken : Bytes) (xs : List Bytes) → absorb taken xs ≡ taken ++ flatten xs
unfolding absorb flatten
absorb-flatten taken [] = sym (append-nil taken)
absorb-flatten taken (x ∷ xs) = absorb-flatten (taken ++ x) xs ∙ append_assoc taken x (flatten xs)

-- What the array types of `LabelPreimage` say.
pub record IsValid (label : LabelPreimage) : Type 0 where
  pub token_addr : length label.token_addr ≡ 20
  pub pubkey_root : length label.pubkey_root ≡ 32
  pub salt : length label.salt ≡ 32

-- A buffer of zeros.
abbrev zeros : ℕ → Bytes
zeros n = replicate n 0

zeros-add : (m n : ℕ) → zeros (m + n) ≡ zeros m ++ zeros n
zeros-add zero n = rw zero-add
zeros-add (suc m) n = rw suc-add (ap (◌∷◌ 0) (zeros-add m n))

-- A write at the front of what is still zero.
copy_at-front :
    (written src : Bytes) (o m n : ℕ)
    → length written ≡ o
    → m ≡ length src + n
    → copy_at (written ++ zeros m) o src ≡ (written ++ src) ++ zeros n
unfolding copy_at
copy_at-front written src o m n h e =
    let split : written ++ zeros m ≡ (written ++ zeros (length src)) ++ zeros n =
      rw (e, zeros-add) (sym (append_assoc written (zeros (length src)) (zeros n))) in
    let rest : drop (o + length src) (written ++ zeros m) ≡ zeros n = rw split (
      drop-append (o + length src) (written ++ zeros (length src)) (zeros n) (
        omega (
          arith,
          length-append written (zeros (length src)),
          length-replicate {A = ℕ} (length src) 0,
        ))) in
    rw (take-append o written (zeros m) h, rest) (sym (append_assoc written src (zeros n)))

-- Six writes one behind the other fill the buffer.
six_writes :
    (m : ℕ) (d t a b r s : Bytes)
    → m ≡ 103
    → length d ≡ 17
    → length t ≡ 20
    → length a ≡ 1
    → length b ≡ 1
    → length r ≡ 32
    → length s ≡ 32
    → copy_at
        (copy_at (copy_at (copy_at (copy_at (copy_at (zeros m) 0 d) 17 t) 37 a) 38 b) 39 r)
        71
        s
      ≡ ((((d ++ t) ++ a) ++ b) ++ r) ++ s
six_writes m d t a b r s hm hd ht ha hb hr hs =
    ap (λ x. copy_at (copy_at (copy_at (copy_at (copy_at x 17 t) 37 a) 38 b) 39 r) 71 s)
      (copy_at-front [] d 0 m 86 refl (omega arith))
    ∙ ap (λ x. copy_at (copy_at (copy_at (copy_at x 37 a) 38 b) 39 r) 71 s)
        (copy_at-front d t 17 86 66 hd (omega arith))
    ∙ ap (λ x. copy_at (copy_at (copy_at x 38 b) 39 r) 71 s)
        (copy_at-front (d ++ t) a 37 66 65 (omega (arith, length-append d t)) (omega arith))
    ∙ ap (λ x. copy_at (copy_at x 39 r) 71 s)
        (copy_at-front ((d ++ t) ++ a) b 38 65 64
          (omega (arith, length-append (d ++ t) a, length-append d t)) (omega arith))
    ∙ ap (λ x. copy_at x 71 s)
        (copy_at-front (((d ++ t) ++ a) ++ b) r 39 64 32
          (omega
            (arith, length-append ((d ++ t) ++ a) b, length-append (d ++ t) a, length-append d t))
          (omega arith))
    ∙ copy_at-front ((((d ++ t) ++ a) ++ b) ++ r) s 71 32 0
        (omega (
          arith,
          length-append (((d ++ t) ++ a) ++ b) r,
          length-append ((d ++ t) ++ a) b,
          length-append (d ++ t) a,
          length-append d t,
        ))
        (omega arith)
    ∙ append-nil (((((d ++ t) ++ a) ++ b) ++ r) ++ s)

-- The fields of the preimage one after the other.
abbrev pub layout : LabelPreimage → Bytes
layout label =
    multisig_domain
    ++ (label.token_addr ++ (label.n ∷ label.k ∷ [] ++ (label.pubkey_root ++ label.salt)))

-- The writes into the 103-byte array leave the domain and the five fields, one after the other
-- and with nothing between them.
pub encode-layout : (label : LabelPreimage) → IsValid label → encode label ≡ layout label
unfolding encode
encode-layout label v =
    six_writes 103 multisig_domain label.token_addr (label.n ∷ []) (label.k ∷ []) label.pubkey_root
      label.salt refl refl v.token_addr refl refl v.pubkey_root v.salt
    ∙ simp append_assoc

pub length-encode : (label : LabelPreimage) → IsValid label → length (encode label) ≡ preimage_len
length-encode label v = rw (encode-layout label v) (
    omega (
      arith,
      length-append label.token_addr (label.n ∷ label.k ∷ [] ++ (label.pubkey_root ++ label.salt)),
      length-append label.pubkey_root label.salt,
      v.token_addr,
      v.pubkey_root,
      v.salt,
    ))

-- The encoding determines the label, for fields of the lengths that their types give.
pub label_inj : (a b : LabelPreimage) → IsValid a → IsValid b → encode a ≡ encode b → a ≡ b
label_inj a b va vb h =
    let flat : layout a ≡ layout b = sym (encode-layout a va) ∙ h ∙ encode-layout b vb in
    let (_, e₀) = append_inj multisig_domain multisig_domain _ _ refl flat in
    let (token, e₁) =
      append_inj a.token_addr b.token_addr _ _ (va.token_addr ∙ sym vb.token_addr) e₀ in
    let (policy, e₂) = append_inj (a.n ∷ a.k ∷ []) (b.n ∷ b.k ∷ []) _ _ refl e₁ in
    let (root, salt) =
      append_inj a.pubkey_root b.pubkey_root a.salt b.salt (va.pubkey_root ∙ sym vb.pubkey_root)
        e₂ in
    let n : a.n ≡ b.n = cc policy in
    let k : a.k ≡ b.k = cc policy in
    λ i. record { token_addr = token i; n = n i; k = k i; pubkey_root = root i; salt = salt i }
