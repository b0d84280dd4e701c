-- ===== src/Constrain/Consumed/Sums.antt =====
-- The two loops that add up what leaves the vault, and the comparison with what is spent.
use arm_multisig_application.Base.{
  ℕ, ◌+◌, ◌<◌, ◌≤◌, ◌≡◌, not, none, some, List, [], ◌∷◌, ◌++◌, ok, refl, ap, ◌∙◌, reject_if-bind,
  >>=-eq-ok, ok_or-eq-ok, some_or-eq-ok, some_or, ok_or, if◌then◌else◌, map, lt→ltb, All, arith,
  inl, inr, Bool-cases,
}
use arm_multisig_application.Base.Bytes.{
  Bytes, bytes_eq, not-bytes_eq, bytes_eq→eq, eq→bytes_eq, ne→bytes_eq, bytes_eq→ne,
}
use arm_multisig_application.Abi.{
  ParsedExternalCall, MultisigInput, parse_external_call, parse_multisig_call_input,
}
use arm_multisig_application.Constrain.Errors.{any_tag, bad_external_payload, digest_to_array}
use arm_multisig_application.Constrain.Consumed.{
  gather_recipients, add_call, walk_payloads, check_conservation,
}
use arm_multisig_application.Constrain.Consumed.Spec.{
  commitment_bytes, InAction, total_quantity, Withdraws, done, other, call,
}
use arm_multisig_application.Constrain.Consumed.Steps.{any_tag-Mem, Mem-any_tag, not-false}
use arm_multisig_application.Journal.{ExpirableBlob}
use arm_multisig_application.Machine.{Build, u128_mod, checked_add}
use arm_multisig_application.Platform.{Platform, IsLawful}
use arm_multisig_application.Witness.{ResourceOf, MultisigConsumedWitness}
use mathlib.Core.List.{append_assoc, append-nil}

pub checked_add-some : (m x y : ℕ) {z : ℕ} → checked_add m x y ≡ some z → (z ≡ x + y) × (z < m)
unfolding checked_add
checked_add-some m x y h = ground arith

pub checked_add-fits : (m x y : ℕ) → x + y < m → checked_add m x y ≡ some (x + y)
unfolding checked_add
checked_add-fits m x y h = rw (lt→ltb _ _ h)

module _ (p : Platform) (law : IsLawful p) (w : MultisigConsumedWitness p) where
  -- What `gather_recipients` returns: the sum, the commitments in order, and all in the action.
  pub gather_recipients_sound :
      (sum : ℕ) (cs : List Bytes) (idx : ℕ) (rs : List (ResourceOf p)) {s : ℕ} {out : List Bytes}
      → gather_recipients p w sum cs idx rs ≡ ok (s, out)
      → (s ≡ sum + total_quantity p rs)
        × (out ≡ cs ++ map (commitment_bytes p) rs)
        × All (InAction p w) rs
  unfolding gather_recipients digest_to_array
  gather_recipients_sound sum cs idx [] h = ground (arith, append-nil cs)
  gather_recipients_sound sum cs idx (r ∷ rs) h =
      let (found, h₁) = reject_if-bind (not (any_tag p w.action_tags (p.commitment r))) _ _ h in
      let (sum', added, h₂) = >>=-eq-ok (some_or (checked_add u128_mod sum r.quantity) _) _ h₁ in
      let (value, _) = checked_add-some u128_mod sum r.quantity (some_or-eq-ok _ _ added) in
      let (total, all, inside) =
        gather_recipients_sound sum' (cs ++ commitment_bytes p r ∷ []) (idx + 1) rs h₂ in
      (
        omega arith,
        all ∙ append_assoc cs (commitment_bytes p r ∷ []) (map (commitment_bytes p) rs),
        (any_tag-Mem p law w.action_tags (p.commitment r) (not-false _ found), inside),
      )

  pub gather_recipients_complete :
      (sum : ℕ) (cs : List Bytes) (idx : ℕ) (rs : List (ResourceOf p)) (s : ℕ)
      → All (InAction p w) rs
      → s ≡ sum + total_quantity p rs
      → s < u128_mod
      → gather_recipients p w sum cs idx rs ≡ ok (s, cs ++ map (commitment_bytes p) rs)
  unfolding gather_recipients digest_to_array
  gather_recipients_complete sum cs idx [] s h total fits = ground (arith, append-nil cs)
  gather_recipients_complete sum cs idx (r ∷ rs) s (m, ms) total fits =
      rw
        (
          Mem-any_tag p law w.action_tags (p.commitment r) m,
          checked_add-fits u128_mod sum r.quantity (omega arith),
        )
        (gather_recipients_complete (sum + r.quantity) (cs ++ commitment_bytes p r ∷ []) (idx + 1)
            rs s ms (omega arith) fits
          ∙ ap (λ out. ok (s, out))
              (append_assoc cs (commitment_bytes p r ∷ []) (map (commitment_bytes p) rs)))

module _ (p : Platform) (b : Build) (w : MultisigConsumedWitness p) (forwarder : Bytes)
    (rec_sum : ℕ) where
  -- A call that `add_call` takes moves the vault's token, and its amount is added.
  pub add_call_sound :
      (sum idx : ℕ) (parsed : ParsedExternalCall) {s : ℕ}
      → add_call p b w rec_sum sum idx parsed ≡ ok s
      → (inner : MultisigInput) × (parse_multisig_call_input b parsed.input ≡ ok inner)
        × (inner.token ≡ w.label_preimage.token_addr)
        × (s ≡ sum + inner.amount)
        × (s < u128_mod)
  unfolding add_call
  add_call_sound sum idx parsed h =
      let (inner, read, h₁) = >>=-eq-ok _ _ h in
      let (token, h₂) =
        reject_if-bind (not (bytes_eq inner.token w.label_preimage.token_addr)) _ _ h₁ in
      let (value, fits) = checked_add-some u128_mod sum inner.amount (some_or-eq-ok _ _ h₂) in
      (inner, ok_or-eq-ok _ _ read, not-bytes_eq _ _ token, value, fits)

  pub add_call_complete :
      (sum idx : ℕ) (parsed : ParsedExternalCall) (inner : MultisigInput)
      → parse_multisig_call_input b parsed.input ≡ ok inner
      → inner.token ≡ w.label_preimage.token_addr
      → sum + inner.amount < u128_mod
      → add_call p b w rec_sum sum idx parsed ≡ ok (sum + inner.amount)
  unfolding add_call
  add_call_complete sum idx parsed inner read token fits =
      rw (read, eq→bytes_eq _ _ token, checked_add-fits u128_mod sum inner.amount fits)

  -- What `walk_payloads` adds to the sum is what the calls of the forwarder move.
  pub walk_payloads_sound :
      (sum idx : ℕ) (blobs : List ExpirableBlob) {s : ℕ}
      → walk_payloads p b w forwarder rec_sum sum idx blobs ≡ ok s
      → (t : ℕ) × Withdraws b forwarder w.label_preimage.token_addr blobs t × (s ≡ sum + t)
  unfolding walk_payloads
  walk_payloads_sound sum idx [] h = (0, done, ground arith)
  walk_payloads_sound sum idx (blob ∷ blobs) h =
      let (parsed, read, h₁) =
        >>=-eq-ok (ok_or (parse_external_call b blob.blob) (bad_external_payload idx)) _ h in
      let (sum', added, h₂) =
        >>=-eq-ok
          (if bytes_eq parsed.forwarder forwarder
            then add_call p b w rec_sum sum idx parsed
            else ok sum)
          _ h₁ in
      let (t, ws, value) = walk_payloads_sound sum' (idx + 1) blobs h₂ in
      elim (Bool-cases (bytes_eq parsed.forwarder forwarder)) [
        | inl here ↦
            let (inner, got, token, now, _) = add_call_sound sum idx parsed (rw here at added) in
            (
              inner.amount + t,
              call parsed inner (ok_or-eq-ok _ _ read) (bytes_eq→eq _ _ here) got token refl ws,
              omega arith,
            )
        | inr there ↦
            let same = rw there at added in
            (t, other parsed (ok_or-eq-ok _ _ read) (bytes_eq→ne _ _ there) ws, ground arith)
      ]

  pub walk_payloads_complete :
      (sum idx : ℕ) {blobs : List ExpirableBlob} {t : ℕ} (s : ℕ)
      → Withdraws b forwarder w.label_preimage.token_addr blobs t
      → s ≡ sum + t
      → s < u128_mod
      → walk_payloads p b w forwarder rec_sum sum idx blobs ≡ ok s
  unfolding walk_payloads
  walk_payloads_complete sum idx s done total fits = ground arith
  walk_payloads_complete sum idx s (other parsed read ne ws) total fits =
      rw (read, ne→bytes_eq _ _ ne) (walk_payloads_complete sum (idx + 1) s ws total fits)
  walk_payloads_complete sum idx s (call parsed inner read e got token add ws) total fits =
      rw (read, eq→bytes_eq _ _ e, add_call_complete sum idx parsed inner got token (omega arith))
        (walk_payloads_complete (sum + inner.amount) (idx + 1) s ws (omega arith) fits)

-- The comparison passes only where the three parts add up to what is spent.
pub check_conservation_sound :
    (p : Platform) (w : MultisigConsumedWitness p) (ext rec : ℕ)
    → check_conservation p w ext rec ≡ ok tt
    → ext + rec + w.change_resource.quantity ≡ w.resource.quantity
unfolding check_conservation checked_add
check_conservation_sound p w ext rec h = ground arith

pub check_conservation_complete :
    (p : Platform) (w : MultisigConsumedWitness p) (ext rec : ℕ)
    → ext + rec + w.change_resource.quantity ≡ w.resource.quantity
    → w.resource.quantity < u128_mod
    → check_conservation p w ext rec ≡ ok tt
unfolding check_conservation checked_add
check_conservation_complete p w ext rec h fits = ground arith

pub checked_add-none : (m x y : ℕ) → checked_add m x y ≡ none → m ≤ x + y
unfolding checked_add
checked_add-none m x y h = ground arith

pub checked_add-overflow : (m x y : ℕ) → m ≤ x + y → checked_add m x y ≡ none
unfolding checked_add
checked_add-overflow m x y h = ground arith
