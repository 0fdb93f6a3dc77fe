-- ===== src/Controls/Approval.antt =====
-- The approval boundary of src/pr_controls.rs: the fingerprint of a proposal, its binding to the
-- details that an operator sees, and the check before a mutation. `digest` is `serde_json::to_vec`
-- with `Sha256::digest` and `hex::encode`, of the crates that the program uses.
pub mod Keys
pub mod Laws
use pi_tools.Common.{Bool, false, ◌&&◌, Option, none, some, ◌++◌}
use pi_tools.Text.{Text, codes, text_eq}
use pi_tools.Json.{
  Json, str, obj, Fields, end, field, insert_field, remove_field, get, as_str, as_bool,
}
use Keys.{
  approved, approved_hash, approval_details, skipped_items, plan_hash, details_key, plan_key,
}

-- The fields of a proposal that the queue itself writes.
pub remove_control_fields : Fields → Fields
remove_control_fields fs =
    remove_field skipped_items
      (remove_field approval_details (remove_field approved_hash (remove_field approved fs)))

pub without_approval_control_fields : Json → Json
unfolding remove_control_fields
without_approval_control_fields (obj fs) = obj (remove_control_fields fs)
without_approval_control_fields v = v

pub without_plan_hash : Json → Json
without_plan_hash (obj fs) = obj (remove_field plan_hash fs)
without_plan_hash v = v

-- `match details { Value::Object(details) => details, details => json!({"details": details}) }`
abbrev pub detail_fields : Json → Fields
detail_fields (obj fs) = fs
detail_fields v = field details_key v end

abbrev opt_is_true : Option Bool → Bool
opt_is_true (some b) = b
opt_is_true none = false

module _ (digest : Json → Text) where
  -- `json!({"plan": proposal, "details": details})`, with its keys in order.
  abbrev pub payload : Json → Json → Json
  payload plan details = obj (
      field details_key (without_plan_hash details)
        (field plan_key (without_approval_control_fields plan) end))

  unfoldable pub approval_fingerprint : Json → Json → Text
  approval_fingerprint plan details = codes "sha256:" ++ digest (payload plan details)

  pub bind_approval_details : Json → Json → Json
  bind_approval_details plan details =
      let fs = detail_fields details in
      obj (insert_field plan_hash (str (approval_fingerprint plan (obj fs))) fs)

  hash_matches : Json → Text → Json → Bool
  hash_matches plan hash details = elim (get plan_hash details) [
    | none ↦ false
    | some v ↦ elim (as_str v) [
      | none ↦ false
      | some bound ↦ text_eq hash bound && text_eq hash (approval_fingerprint plan details)
    ]
  ]

  hash_approved : Json → Bool
  unfolding hash_matches
  hash_approved plan = elim (get approved_hash plan) [
    | none ↦ false
    | some v ↦ elim (as_str v) [
      | none ↦ false
      | some hash ↦ elim (get approval_details plan) [
        | none ↦ false
        | some details ↦ hash_matches plan hash details
      ]
    ]
  ]

  bit_approved : Json → Bool
  bit_approved plan = elim (get approved plan) [ none ↦ false | some v ↦ opt_is_true (as_bool v) ]

  pub plan_is_approved : Json → Bool
  unfolding hash_approved bit_approved
  plan_is_approved plan = bit_approved plan && hash_approved plan
