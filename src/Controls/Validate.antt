-- ===== src/Controls/Validate.antt =====
-- src/pr_controls.rs: the checks on what enters a comment or a control (`validate_identifier`,
-- `validate_safe_text`, `validate_approval_hash`, `validate_items`, `collect_safe_lines`), and the
-- plan items that pass them. `Url::parse` is a crate's, so `validate_https_url` is left out.
use pi_tools.Common.{
  ℕ, Bool, false, not, ◌||◌, none, some, List, [], ◌∷◌, ltb, ◌==◌, length, is_empty, any, all,
  Result, ok, err, ◌>>◌, reject_if,
}
use pi_tools.Text.{
  Text, codes, text_eq, byte_len, to_ascii_lowercase, strip_prefix, contains, contains_any,
  is_blank, is_ascii_alphanumeric, is_ascii_hexdigit,
}

pub data ItemStatus : Type 0 where
  pending in_progress completed failed skipped cancelled : ItemStatus

abbrev pub label : ItemStatus → Text
label pending = codes "pending"
label in_progress = codes "in progress"
label completed = codes "completed"
label failed = codes "failed"
label skipped = codes "skipped"
label cancelled = codes "cancelled"

pub record PlanItem : Type 0 where
  pub id : Text
  pub summary : Text
  pub status : ItemStatus

-- The field that is refused, and why.
pub data ContractError : Type 0 where
  invalid : Text → Text → ContractError
  markdown_too_large : ContractError

abbrev pub max_items : ℕ
max_items = 100

abbrev pub max_item_id_bytes : ℕ
max_item_id_bytes = 64

abbrev pub max_text_bytes : ℕ
max_text_bytes = 1_000

abbrev pub is_identifier_byte : ℕ → Bool
is_identifier_byte c = is_ascii_alphanumeric c || (c == b'-' || (c == b'_' || c == b'.'))

unfoldable pub validate_identifier : Text → Text → Result ContractError (Unit {0})
unfolding byte_len
validate_identifier name value =
    reject_if
      (is_empty value
        || (ltb max_item_id_bytes (byte_len value) || not (all is_identifier_byte value)))
      (invalid name (codes "must be 1-64 ASCII letters, digits, '.', '_' or '-'"))

abbrev pub secret_indicators : List Text
secret_indicators =
    codes "github_pat_"
    ∷ codes "ghp_"
    ∷ codes "sk-proj-"
    ∷ codes "-----begin private key"
    ∷ codes "authorization: bearer"
    ∷ codes "x-access-token:"
    ∷ []

abbrev pub is_secret_like : Text → Bool
is_secret_like value = any (contains (to_ascii_lowercase value)) secret_indicators

unfoldable pub validate_safe_text : Text → Text → Result ContractError (Unit {0})
unfolding byte_len contains
validate_safe_text name value = do
  reject_if
      (is_blank value || (ltb max_text_bytes (byte_len value) || contains_any (0xd ∷ 0 ∷ []) value))
      (invalid name (codes "must be non-empty, single-line-safe text of at most 1000 bytes"))
  reject_if (is_secret_like value) (invalid name (codes "contains secret-like material"))

abbrev pub approval_hash_error : ContractError
approval_hash_error =
    invalid (codes "approval hash") (codes "must use the sha256:<64 hex characters> format")

unfoldable pub validate_approval_hash : Text → Result ContractError (Unit {0})
unfolding byte_len strip_prefix
validate_approval_hash value = elim (strip_prefix (codes "sha256:") value) [
  | none ↦ err approval_hash_error
  | some hex ↦
      reject_if (not (byte_len hex == 64) || not (all is_ascii_hexdigit hex)) approval_hash_error
]

-- `PlanItem::new`.
unfoldable pub new_item : Text → Text → ItemStatus → Result ContractError PlanItem
unfolding validate_identifier validate_safe_text
new_item id summary status = do
  validate_identifier (codes "item id") id
  validate_safe_text (codes "item summary") summary
  ok (record { id = id; summary = summary; status = status })

-- `items.iter().any(|item| !ids.insert(item.id.as_str()))`, with the ids inserted so far.
unfoldable pub repeats : List Text → List PlanItem → Bool
repeats ids [] = false
repeats ids (item ∷ rest) = any (text_eq item.id) ids || repeats (item.id ∷ ids) rest

unfoldable pub validate_items : List PlanItem → Result ContractError (Unit {0})
unfolding repeats
validate_items items = do
  reject_if (ltb max_items (length items))
      (invalid (codes "plan items") (codes "cannot contain more than 100 entries"))
  reject_if (repeats [] items) (invalid (codes "plan items") (codes "item ids must be unique"))

validate_all : Text → List Text → Result ContractError (Unit {0})
validate_all name [] = ok tt
validate_all name (value ∷ rest) = do validate_safe_text name value; validate_all name rest

unfoldable pub collect_safe_lines : Text → List Text → Result ContractError (List Text)
unfolding validate_all
collect_safe_lines name values = do
  reject_if (ltb max_items (length values))
      (invalid name (codes "cannot contain more than 100 entries"))
  validate_all name values
  ok values
