-- ===== src/Controls/Approval/Laws.antt =====
-- Which plans count as approved.
use pi_tools.Common.{refl, ◌≡◌, ◌↔◌, inl, inr, true, some, arith, Option-cases}
use pi_tools.Text.{Text}
use pi_tools.Text.Laws.{text_eq_iff}
use pi_tools.Json.Laws.{remove_field-insert_field, remove_field_comm}
use pi_tools.Json.{obj, Json, insert_field, remove_field, Fields, bool, str, get, as_str}
use pi_tools.Controls.Approval.Keys.{
  skipped_items, approved, approved_hash, approval_details, plan_hash,
}
use pi_tools.Controls.Approval.{
  bind_approval_details, detail_fields, remove_control_fields, without_approval_control_fields,
  without_plan_hash, payload, approval_fingerprint, plan_is_approved, hash_matches, bit_approved,
}

-- The fingerprint does not see what the queue writes at its own keys.
module _ (v : Json) (fs : Fields) where
  pub remove_control_fields-approved :
      remove_control_fields (insert_field approved v fs) ≡ remove_control_fields fs
  unfolding remove_control_fields
  remove_control_fields-approved = rw (remove_field-insert_field approved v fs)

  pub remove_control_fields-approved_hash :
      remove_control_fields (insert_field approved_hash v fs) ≡ remove_control_fields fs
  unfolding remove_control_fields
  remove_control_fields-approved_hash = cc (
    remove_field_comm approved_hash approved (insert_field approved_hash v fs),
    remove_field-insert_field approved_hash v fs,
    remove_field_comm approved_hash approved fs,
  )

  pub remove_control_fields-approval_details :
      remove_control_fields (insert_field approval_details v fs) ≡ remove_control_fields fs
  unfolding remove_control_fields
  remove_control_fields-approval_details =
      let written = insert_field approval_details v fs in
      cc (
        remove_field_comm approval_details approved_hash (remove_field approved written),
        remove_field_comm approval_details approved written,
        remove_field-insert_field approval_details v fs,
        remove_field_comm approval_details approved_hash (remove_field approved fs),
        remove_field_comm approval_details approved fs,
      )

  pub remove_control_fields-skipped_items :
      remove_control_fields (insert_field skipped_items v fs) ≡ remove_control_fields fs
  unfolding remove_control_fields
  remove_control_fields-skipped_items =
      let written = insert_field skipped_items v fs in
      let unapproved = remove_field approved_hash (remove_field approved written) in
      let plain = remove_field approved_hash (remove_field approved fs) in
      cc (
        remove_field_comm skipped_items approval_details unapproved,
        remove_field_comm skipped_items approved_hash (remove_field approved written),
        remove_field_comm skipped_items approved written,
        remove_field-insert_field skipped_items v fs,
        remove_field_comm skipped_items approval_details plain,
        remove_field_comm skipped_items approved_hash (remove_field approved fs),
        remove_field_comm skipped_items approved fs,
      )

module _ (digest : Json → Text) where
  pub bind_approval_details-obj :
      (plan details : Json)
      → bind_approval_details digest plan details
        ≡ obj (
            insert_field plan_hash
              (str (approval_fingerprint digest plan (obj (detail_fields details))))
              (detail_fields details))
  unfolding bind_approval_details
  bind_approval_details-obj plan details = refl

  pub fingerprint-proposal :
      (fs gs : Fields) (details : Json)
      → remove_control_fields fs ≡ remove_control_fields gs
      → approval_fingerprint digest (obj fs) details ≡ approval_fingerprint digest (obj gs) details
  unfolding approval_fingerprint without_approval_control_fields
  fingerprint-proposal fs gs details h = rw h refl

  -- Nor does it see the hash that it is bound to.
  pub fingerprint-bound :
      (plan details : Json) (v : Json)
      → approval_fingerprint digest plan (obj (insert_field plan_hash v (detail_fields details)))
        ≡ approval_fingerprint digest plan (obj (detail_fields details))
  unfolding approval_fingerprint without_plan_hash
  fingerprint-bound plan details v =
      rw (remove_field-insert_field plan_hash v (detail_fields details)) refl

  -- What an approved plan carries: the bit, the details shown, and their fingerprint twice.
  pub record IsApproved (plan : Json) : Type 0 where
    pub details : Json
    pub hash : Text
    pub bit : get approved plan ≡ some (bool true)
    pub granted : get approved_hash plan ≡ some (str hash)
    pub shown : get approval_details plan ≡ some details
    pub bound : get plan_hash details ≡ some (str hash)
    pub fingerprint : hash ≡ approval_fingerprint digest plan details

  as_str-eq-some : (v : Json) {t : Text} → as_str v ≡ some t → v ≡ str t
  as_str-eq-some v h = ground arith

  bit_approved_sound :
      (plan : Json) → bit_approved digest plan ≡ true → get approved plan ≡ some (bool true)
  unfolding bit_approved
  bit_approved_sound plan h = ground arith

  abbrev Match : Json → Text → Json → Type 0
  Match plan hash details =
      (get plan_hash details ≡ some (str hash)) × (hash ≡ approval_fingerprint digest plan details)

  hash_matches_sound :
      (plan : Json) (hash : Text) (details : Json)
      → hash_matches digest plan hash details ≡ true
      → Match plan hash details
  unfolding hash_matches
  hash_matches_sound plan hash details h = elim (Option-cases (get plan_hash details)) [
    | inl e ↦ ground arith
    | inr (v, e) ↦ elim (Option-cases (as_str v)) [
      | inl e' ↦ ground arith
      | inr (bound, e') ↦ ground (
        arith,
        as_str-eq-some v e',
        text_eq_iff hash bound,
        text_eq_iff hash (approval_fingerprint digest plan details),
      )
    ]
  ]

  plan_is_approved_sound : (plan : Json) → plan_is_approved digest plan ≡ true → IsApproved plan
  unfolding plan_is_approved
  plan_is_approved_sound plan h = elim (Option-cases (get approved_hash plan)) [
    | inl e ↦ absurd (ground arith)
    | inr (v, e) ↦ elim (Option-cases (as_str v)) [
      | inl e' ↦ absurd (ground arith)
      | inr (hash, e') ↦ elim (Option-cases (get approval_details plan)) [
        | inl e'' ↦ absurd (ground arith)
        | inr (details, e'') ↦
            let m : Match plan hash details = hash_matches_sound plan hash details (ground arith) in
            record {
              details = details;
              hash = hash;
              bit = bit_approved_sound plan (ground arith);
              granted = ground (arith, as_str-eq-some v e');
              shown = e'';
              bound = m.0;
              fingerprint = m.1;
            }
      ]
    ]
  ]

  plan_is_approved_complete : (plan : Json) → IsApproved plan → plan_is_approved digest plan ≡ true
  unfolding plan_is_approved
  plan_is_approved_complete plan a = ground (
    arith,
    text_eq_iff a.hash a.hash,
    text_eq_iff a.hash (approval_fingerprint digest plan a.details),
  )

  -- A plan passes the check exactly if it carries the approval bit, the hash that was approved, and
  -- details whose own hash is that one, and that hash is the fingerprint of the plan and the details.
  pub plan_is_approved_iff : (plan : Json) → (plan_is_approved digest plan ≡ true) ↔ IsApproved plan
  plan_is_approved_iff plan = (plan_is_approved_sound plan, plan_is_approved_complete plan)

module _ (digest : Json → Text) (injective : (v w : Json) → digest v ≡ digest w → v ≡ w) where
  -- Of two plans approved under one hash, the proposals and the bound details are the same.
  pub approved_hash-binds :
      (p q : Json) (a : IsApproved digest p) (b : IsApproved digest q)
      → a.hash ≡ b.hash
      → (without_approval_control_fields p ≡ without_approval_control_fields q)
        × (without_plan_hash a.details ≡ without_plan_hash b.details)
  unfolding approval_fingerprint
  approved_hash-binds p q a b e =
      let same : payload digest p a.details ≡ payload digest q b.details =
        injective _ _ (ground arith) in
      ground (arith, same)
