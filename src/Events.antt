-- ===== src/Events.antt =====
-- src/github/events.rs: a webhook delivery, and what is read from its payload. An `i64` is its bit
-- pattern, below 2 ^ 64, and an `i32` is that of the `i64` of its value; `Value::as_i64` is a crate's.
use pi_tools.Common.{
  ℕ, ◌-◌, ◌^◌, Bool, false, ◌&&◌, ◌||◌, Option, none, some, List, [], ◌∷◌, ltb, leb, if◌then◌else◌,
  any, Result, ok, ok_or, ◌>>=◌,
}
use pi_tools.Text.{Text, codes, text_eq}
use pi_tools.Json.{Json, arr, obj, Items, nil, cons, get_field, get, as_str}

pub record DeliveryEnvelope : Type 0 where
  pub delivery_id : Text
  pub event_name : Text
  pub action : Option Text
  pub installation_id : Option ℕ
  pub repository_id : Option ℕ
  pub pull_request_number : Option ℕ
  pub payload : Json
  pub raw_body : List ℕ

pub record CheckRunControl : Type 0 where
  pub check_run_id : ℕ
  pub action : Text
  pub actor_login : Text

pub record FeedbackRecord : Type 0 where
  pub id : Text
  pub actor_login : Text
  pub actor_type : Text
  pub body : Text
  pub resolved : Bool
  pub is_automation : Bool
  pub path : Option Text
  pub start_line : Option ℕ
  pub line : Option ℕ

pub record CheckRecord : Type 0 where
  pub external_id : Text
  pub name : Text
  pub app_id : Option ℕ
  pub status : Text
  pub conclusion : Option Text
  pub details_url : Option Text

pub data AccessLifecycle : Type 0 where
  suspend_installation resume_installation delete_installation remove_repositories
        add_repositories :
      AccessLifecycle

pub data EventParseError : Type 0 where
  missing : Text → EventParseError
  invalid : (field value : Text) → EventParseError

-- `Option::and_then`, `Option::or_else`, and a test at a value that may be absent.
infixl 5 ◌then?◌
abbrev pub ◌then?◌ {ℓ κ} : {A : Type ℓ} {B : Type κ} → Option A → (A → Option B) → Option B
none then? f = none
some a then? f = f a

infixr 6 ◌or?◌
abbrev pub ◌or?◌ {ℓ} : {A : Type ℓ} → Option A → Option A → Option A
none or? o = o
some a or? o = some a

abbrev pub is_text : Text → Option Text → Bool
is_text t none = false
is_text t (some s) = text_eq s t

abbrev first_item : Items → Option Json
first_item nil = none
first_item (cons v vs) = some v

-- One token of a JSON pointer. Of all indices the program names only the first.
abbrev token : Text → Json → Option Json
token k (obj fs) = get_field k fs
token k (arr vs) = if text_eq k (codes "0") then first_item vs else none
token k _ = none

-- `Value::pointer`, by its tokens.
unfoldable pub pointer : List Text → Json → Option Json
unfolding get_field text_eq
pointer [] v = some v
pointer (k ∷ ks) v = elim (token k v) [ none ↦ none | some w ↦ pointer ks w ]

-- `i32::try_from`.
abbrev pub to_i32 : ℕ → Option ℕ
to_i32 n = if ltb n (2 ^ 31) || leb (2 ^ 64 - 2 ^ 31) n then some n else none

abbrev first_pull_request : Text → Json → Option Json
first_pull_request event = pointer (event ∷ codes "pull_requests" ∷ codes "0" ∷ codes "number" ∷ [])

module _ (as_i64 : Json → Option ℕ) where
  unfoldable pub from_payload : Text → Text → Json → List ℕ → DeliveryEnvelope
  unfolding pointer
  from_payload delivery_id event_name payload raw_body = record {
    delivery_id = delivery_id;
    event_name = event_name;
    action = get (codes "action") payload then? as_str;
    installation_id = pointer (codes "installation" ∷ codes "id" ∷ []) payload then? as_i64;
    repository_id = pointer (codes "repository" ∷ codes "id" ∷ []) payload then? as_i64;
    pull_request_number =
        pointer (codes "pull_request" ∷ codes "number" ∷ []) payload
          or? pointer (codes "issue" ∷ codes "number" ∷ []) payload
          or? first_pull_request (codes "check_run") payload
          or? first_pull_request (codes "check_suite") payload
          or? first_pull_request (codes "workflow_run") payload
        then? as_i64
        then? to_i32;
    payload = payload;
    raw_body = raw_body;
  }

  unfoldable pub read_control : Json → Result EventParseError CheckRunControl
  unfolding pointer
  read_control payload = do
    check_run_id ←
        ok_or (pointer (codes "check_run" ∷ codes "id" ∷ []) payload then? as_i64)
          (missing (codes "check_run.id"))
    action ←
        ok_or (pointer (codes "requested_action" ∷ codes "identifier" ∷ []) payload then? as_str)
          (missing (codes "requested_action.identifier"))
    actor_login ←
        ok_or (pointer (codes "sender" ∷ codes "login" ∷ []) payload then? as_str)
          (missing (codes "sender.login"))
    ok (record { check_run_id = check_run_id; action = action; actor_login = actor_login })

  unfoldable pub check_run_control :
      DeliveryEnvelope → Result EventParseError (Option CheckRunControl)
  unfolding read_control text_eq
  check_run_control delivery =
      if text_eq delivery.event_name (codes "check_run")
        && is_text (codes "requested_action") delivery.action
      then (read_control delivery.payload >>= λ control. ok (some control))
      else ok none

unfoldable pub is_supported : DeliveryEnvelope → Bool
unfolding text_eq
is_supported delivery = any (text_eq delivery.event_name) (
    codes "installation"
    ∷ codes "installation_repositories"
    ∷ codes "pull_request"
    ∷ codes "pull_request_review"
    ∷ codes "pull_request_review_comment"
    ∷ codes "issue_comment"
    ∷ codes "check_run"
    ∷ codes "check_suite"
    ∷ codes "workflow_run"
    ∷ codes "status"
    ∷ [])

unfoldable pub access_lifecycle : DeliveryEnvelope → Option AccessLifecycle
unfolding text_eq
access_lifecycle delivery =
    let installation = text_eq delivery.event_name (codes "installation") in
    let repositories = text_eq delivery.event_name (codes "installation_repositories") in
    if installation && is_text (codes "suspend") delivery.action
    then some suspend_installation
    else if installation && is_text (codes "unsuspend") delivery.action
    then some resume_installation
    else if installation && is_text (codes "deleted") delivery.action
    then some delete_installation
    else if repositories && is_text (codes "removed") delivery.action
    then some remove_repositories
    else if repositories && is_text (codes "added") delivery.action
    then some add_repositories
    else none

abbrev head_of : Text → Json → Option Text
head_of event payload = pointer (event ∷ codes "head_sha" ∷ []) payload then? as_str

unfoldable pub head_sha : DeliveryEnvelope → Option Text
unfolding pointer
head_sha delivery =
    (get (codes "sha") delivery.payload then? as_str)
    or? head_of (codes "workflow_run") delivery.payload
    or? head_of (codes "check_run") delivery.payload
    or? head_of (codes "check_suite") delivery.payload
