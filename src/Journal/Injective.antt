-- ===== src/Journal/Injective.antt =====
-- The journal bytes determine the instance: the encoding is a prefix code in each of its parts.
use arm_multisig_application.Base.{
  ℕ, ◌^◌, ◌<◌, ◌≡◌, ◌∙◌, refl, sym, Bool, true, false, List, [], ◌∷◌, ◌++◌, ok, length,
  if◌then◌else◌, All, arith, append_inj,
}
use arm_multisig_application.Base.Bytes.{Bytes}
use arm_multisig_application.Base.Words.{to_le_bytes, length-to_le_bytes, to_le_bytes_inj}
use arm_multisig_application.Journal.{
  DeletionCriterion, immediately, never, ExpirableBlob, AppData, LogicInstance, as_u8, encode,
}
use arm_multisig_application.Journal.Layout.{
  blob_layout, blobs_layout, payload_layout, app_layout, layout, IsValid, Fits, FitsAll,
  encode-eq_layout,
}
use mathlib.Core.List.{append_assoc, append-nil}

as_u8_inj : (c d : DeletionCriterion) → as_u8 c ≡ as_u8 d → c ≡ d
as_u8_inj immediately immediately h = refl
as_u8_inj immediately never h = absurd (omega arith)
as_u8_inj never immediately h = absurd (omega arith)
as_u8_inj never never h = refl

-- A length prefix is read off, whatever follows it.
pub length_prefix_inj :
    (m n : ℕ) (xs ys : Bytes)
    → m < 2 ^ 32
    → n < 2 ^ 32
    → to_le_bytes m ++ xs ≡ to_le_bytes n ++ ys
    → (m ≡ n) × (xs ≡ ys)
length_prefix_inj m n xs ys hm hn h =
    let (e, rest) =
      append_inj (to_le_bytes m) (to_le_bytes n) xs ys
        (length-to_le_bytes m ∙ sym (length-to_le_bytes n)) h in
    (to_le_bytes_inj m n hm hn e, rest)

ExpirableBlob-eq :
    (b c : ExpirableBlob) → b.deletion_criterion ≡ c.deletion_criterion → b.blob ≡ c.blob → b ≡ c
ExpirableBlob-eq b c h k = λ i. record { deletion_criterion = h i; blob = k i }

blob_layout_inj :
    (b c : ExpirableBlob) (xs ys : Bytes)
    → length b.blob < 2 ^ 32
    → length c.blob < 2 ^ 32
    → blob_layout b ++ xs ≡ blob_layout c ++ ys
    → (b ≡ c) × (xs ≡ ys)
blob_layout_inj b c xs ys hb hc h =
    let (kind, t) =
      append_inj (as_u8 b.deletion_criterion ∷ []) (as_u8 c.deletion_criterion ∷ [])
        ((to_le_bytes (length b.blob) ++ b.blob) ++ xs)
        ((to_le_bytes (length c.blob) ++ c.blob) ++ ys) refl h in
    let (n, t') =
      length_prefix_inj (length b.blob) (length c.blob) (b.blob ++ xs) (c.blob ++ ys) hb hc (
        sym (append_assoc (to_le_bytes (length b.blob)) b.blob xs)
        ∙ t
        ∙ append_assoc (to_le_bytes (length c.blob)) c.blob ys) in
    let (e, r) = append_inj b.blob c.blob xs ys n t' in
    (ExpirableBlob-eq b c (as_u8_inj _ _ (ground (arith, kind))) e, r)

blobs_layout_inj :
    (ps qs : List ExpirableBlob) (xs ys : Bytes)
    → length ps ≡ length qs
    → All (λ b. length b.blob < 2 ^ 32) ps
    → All (λ b. length b.blob < 2 ^ 32) qs
    → blobs_layout ps ++ xs ≡ blobs_layout qs ++ ys
    → (ps ≡ qs) × (xs ≡ ys)
blobs_layout_inj [] [] xs ys n hp hq h = (refl, h)
blobs_layout_inj [] (q ∷ qs) xs ys n hp hq h = absurd (omega arith)
blobs_layout_inj (p ∷ ps) [] xs ys n hp hq h = absurd (omega arith)
blobs_layout_inj (p ∷ ps) (q ∷ qs) xs ys n (hp, hps) (hq, hqs) h =
    let (e, t) = blob_layout_inj p q (blobs_layout ps ++ xs) (blobs_layout qs ++ ys) hp hq (
      sym (append_assoc (blob_layout p) (blobs_layout ps) xs)
      ∙ h
      ∙ append_assoc (blob_layout q) (blobs_layout qs) ys) in
    let (es, r) = blobs_layout_inj ps qs xs ys (omega arith) hps hqs t in (λ i. e i ∷ es i, r)

payload_layout_inj :
    (ps qs : List ExpirableBlob) (xs ys : Bytes)
    → Fits ps
    → Fits qs
    → payload_layout ps ++ xs ≡ payload_layout qs ++ ys
    → (ps ≡ qs) × (xs ≡ ys)
payload_layout_inj ps qs xs ys (np, hp) (nq, hq) h =
    let (n, t) =
      length_prefix_inj (length ps) (length qs) (blobs_layout ps ++ xs) (blobs_layout qs ++ ys) np
        nq
        (sym (append_assoc (to_le_bytes (length ps)) (blobs_layout ps) xs)
          ∙ h
          ∙ append_assoc (to_le_bytes (length qs)) (blobs_layout qs) ys) in
    blobs_layout_inj ps qs xs ys n hp hq t

app_layout_inj : (a b : AppData) → FitsAll a → FitsAll b → app_layout a ≡ app_layout b → a ≡ b
app_layout_inj a b fa fb h =
    let (e₁, t₁) =
      payload_layout_inj a.resource_payload b.resource_payload _ _ fa.resource_payload
        fb.resource_payload h in
    let (e₂, t₂) =
      payload_layout_inj a.discovery_payload b.discovery_payload _ _ fa.discovery_payload
        fb.discovery_payload t₁ in
    let (e₃, t₃) =
      payload_layout_inj a.external_payload b.external_payload _ _ fa.external_payload
        fb.external_payload t₂ in
    let (e₄, _) =
      payload_layout_inj a.application_payload b.application_payload [] [] fa.application_payload
        fb.application_payload (append-nil _ ∙ t₃ ∙ sym (append-nil _)) in
    λ i. record {
      resource_payload = e₁ i;
      discovery_payload = e₂ i;
      external_payload = e₃ i;
      application_payload = e₄ i;
    }

flag : Bool → ℕ
flag b = if b then 1 else 0

flag_inj : (b c : Bool) → to_le_bytes (flag b) ≡ to_le_bytes (flag c) → b ≡ c
unfolding flag
flag_inj true true h = refl
flag_inj true false h = absurd (omega (arith, to_le_bytes_inj 1 0 (omega arith) (omega arith) h))
flag_inj false true h = absurd (omega (arith, to_le_bytes_inj 0 1 (omega arith) (omega arith) h))
flag_inj false false h = refl

pub layout_inj :
    (i j : LogicInstance)
    → IsValid i
    → IsValid j
    → FitsAll i.app_data
    → FitsAll j.app_data
    → layout i ≡ layout j
    → i ≡ j
unfolding layout flag
layout_inj i j vi vj fi fj h =
    let (e₁, t₁) = append_inj i.tag j.tag _ _ (vi.tag ∙ sym vj.tag) h in
    let (e₂, t₂) =
      append_inj (to_le_bytes (flag i.is_consumed)) (to_le_bytes (flag j.is_consumed)) _ _
        (length-to_le_bytes (flag i.is_consumed) ∙ sym (length-to_le_bytes (flag j.is_consumed)))
        t₁ in
    let (e₃, t₃) =
      append_inj i.action_tree_root j.action_tree_root _ _
        (vi.action_tree_root ∙ sym vj.action_tree_root) t₂ in
    let same_flag = flag_inj i.is_consumed j.is_consumed e₂ in
    let same_app = app_layout_inj i.app_data j.app_data fi fj t₃ in
    λ k. record {
      tag = e₁ k;
      is_consumed = same_flag k;
      action_tree_root = e₃ k;
      app_data = same_app k;
    }

-- Two instances with digests of 32 bytes for which `encode` returns the same bytes are equal in
-- every field, all four payload lists included.
pub encode_inj :
    {E : Type 0} (i j : LogicInstance) {bs : Bytes}
    → IsValid i
    → IsValid j
    → encode {E = E} i ≡ ok bs
    → encode {E = E} j ≡ ok bs
    → i ≡ j
encode_inj i j vi vj hi hj =
    let (fi, ei) = encode-eq_layout i hi in
    let (fj, ej) = encode-eq_layout j hj in layout_inj i j vi vj fi fj (sym ei ∙ ej)
