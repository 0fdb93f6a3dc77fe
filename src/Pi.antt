-- ===== src/Pi.antt =====
-- src/pi.rs: the request for a Pi worker and the result that it may answer with. A path is a text: every
-- path that the service passes on is valid UTF-8.
pub mod Secrets
pub mod Execute
pub mod Laws
pub mod Bound
mod Tests
use pi_tools.Common.{
  ℕ, ◌+◌, ◌-◌, ◌*◌, ◌^◌, Bool, true, false, not, ◌&&◌, ◌||◌, Option, none, some, List, [], ◌∷◌, ltb,
  leb, ◌==◌, if◌then◌else◌, length, is_empty, any, all, Result, ok, err, ◌>>=◌, ◌>>◌, reject_if,
}
use pi_tools.Text.{Text, codes, text_eq, byte_len, contains_any, is_blank}
use pi_tools.Paths.{is_normal, is_absolute, components}
use pi_tools.Json.{Json}
use pi_tools.Ci.{message}
use pi_tools.Ci.Patch.{CiPatch, validate_patch_set}
use pi_tools.Pi.Secrets.{contains_secret_like}

abbrev pub max_input_bytes : ℕ
max_input_bytes = 256 * 1024

abbrev pub max_output_bytes : ℕ
max_output_bytes = 64 * 1024

abbrev pub max_snapshot_files : ℕ
max_snapshot_files = 16

abbrev pub max_snapshot_file_bytes : ℕ
max_snapshot_file_bytes = 16 * 1024

abbrev pub max_snapshot_bytes : ℕ
max_snapshot_bytes = 48 * 1024

pub record PiSnapshotFile : Type 0 where
  pub path : Text
  pub content : Text

pub record PiJobRequest : Type 0 where
  pub protocol_version : Text
  pub job_id : ℕ
  pub repository : Text
  pub snapshot_path : Text
  pub snapshot_files : List PiSnapshotFile
  pub allowed_paths : List Text
  pub failure_evidence : Option Text
  pub policy_revision : Text
  pub nonce : Text

-- An `f64`: its sign, and what it is the quotient of by a power of two.
pub data F64 : Type 0 where
  nan : F64
  infinity : Bool → F64
  finite : Bool → ℕ → ℕ → F64

-- `(0.0..=1.0).contains(…)`; a zero has a sign as well.
abbrev pub in_unit_range : F64 → Bool
in_unit_range nan = false
in_unit_range (infinity negative) = false
in_unit_range (finite negative numerator exponent) =
    numerator == 0 || (not negative && leb numerator (2 ^ exponent))

pub record PiJobResult : Type 0 where
  pub protocol_version : Text
  pub job_id : ℕ
  pub nonce : Text
  pub diagnosis : Text
  pub confidence : F64
  pub proposed_files : List Text
  pub proposed_patches : List CiPatch
  pub validation_commands : List Text
  pub risks : List Text
  pub requires_approval : Bool
  pub metadata : Option Json

pub data PiError : Type 0 where
  empty_command unsafe_command input_too_large output_too_large timed_out missing_pipe empty_output
        binding_mismatch approval_required path_not_allowed secret_like_output secret_like_input
        invalid_request :
      PiError
  spawn write read wait invalid_result invalid_path worker_failed serialization : Text → PiError

unfoldable pub validate_relative_path : Text → Result PiError (Unit {0})
unfolding is_absolute components
validate_relative_path value =
    reject_if
      (is_empty value
        || (is_absolute value
            || (contains_any (b'\\' ∷ []) value || not (all is_normal (components value)))))
      (invalid_path value)

unfoldable pub validate_paths : List Text → Result PiError (Unit {0})
unfolding validate_relative_path
validate_paths [] = ok tt
validate_paths (path ∷ paths) = do validate_relative_path path; validate_paths paths

abbrev pub saturating_add : ℕ → ℕ → ℕ
saturating_add a b = if leb (a + b) (2 ^ 64 - 1) then a + b else 2 ^ 64 - 1

-- One file of the loop of `validate`, with the paths and the bytes of those before it.
unfoldable pub validate_file :
    List Text → List Text → ℕ → PiSnapshotFile → Result PiError (Unit {0})
unfolding validate_relative_path text_eq byte_len contains_secret_like
validate_file allowed_paths snapshot_paths snapshot_bytes file = do
  validate_relative_path file.path
  reject_if
      (not (any (λ path. text_eq path file.path) allowed_paths)
        || any (λ path. text_eq path file.path) snapshot_paths)
      path_not_allowed
  reject_if (ltb max_snapshot_file_bytes (byte_len file.content)) input_too_large
  reject_if (ltb max_snapshot_bytes (saturating_add snapshot_bytes (byte_len file.content)))
      input_too_large
  reject_if (contains_secret_like file.content) secret_like_input

unfoldable pub validate_files :
    List Text → List Text → ℕ → List PiSnapshotFile → Result PiError (Unit {0})
unfolding validate_file byte_len
validate_files allowed_paths snapshot_paths snapshot_bytes [] = ok tt
validate_files allowed_paths snapshot_paths snapshot_bytes (file ∷ files) = do
  validate_file allowed_paths snapshot_paths snapshot_bytes file
  validate_files allowed_paths (file.path ∷ snapshot_paths)
      (saturating_add snapshot_bytes (byte_len file.content)) files

abbrev pub is_secret_like : Option Text → Bool
unfolding contains_secret_like
is_secret_like none = false
is_secret_like (some text) = contains_secret_like text

unfoldable pub validate : PiJobRequest → Result PiError (Unit {0})
unfolding text_eq validate_relative_path validate_paths validate_files is_secret_like
validate request = do
  reject_if
      (not (text_eq request.protocol_version (codes "pitools.pi/v1"))
        || (is_blank request.repository
            || (is_blank request.snapshot_path
                || (is_blank request.policy_revision || is_blank request.nonce))))
      invalid_request
  validate_relative_path request.snapshot_path
  validate_paths request.allowed_paths
  reject_if (ltb max_snapshot_files (length request.snapshot_files)) input_too_large
  validate_files request.allowed_paths [] 0 request.snapshot_files
  reject_if (is_secret_like request.failure_evidence) secret_like_input

-- `validate_patch_set(…).map_err(…)`; of the error only its message is kept.
unfoldable pub validate_proposed : List Text → List CiPatch → Result PiError (Unit {0})
unfolding validate_patch_set
validate_proposed allowed_paths patches = elim (is_empty patches) [
  | true ↦ ok tt
  | false ↦ elim (validate_patch_set patches allowed_paths) [
    | ok u ↦ ok tt
    | err e ↦ err (invalid_result (message e))
  ]
]

abbrev pub serialized_as : Result Text Text → Result PiError Text
serialized_as (err message) = err (serialization message)
serialized_as (ok text) = ok text

-- `serialize` is `serde_json::to_string`.
unfoldable pub validate_result :
    (PiJobResult → Result Text Text) → PiJobRequest → PiJobResult → Result PiError PiJobResult
unfolding text_eq validate_proposed contains_secret_like
validate_result serialize request parsed = do
  reject_if
      (not (text_eq parsed.protocol_version request.protocol_version)
        || (not (parsed.job_id == request.job_id)
            || (not (text_eq parsed.nonce request.nonce) || not (in_unit_range parsed.confidence))))
      binding_mismatch
  reject_if
      (any (λ path. not (any (λ allowed. text_eq allowed path) request.allowed_paths))
        parsed.proposed_files)
      path_not_allowed
  reject_if (not (is_empty parsed.proposed_patches) && not parsed.requires_approval)
      approval_required
  validate_proposed request.allowed_paths parsed.proposed_patches
  serialized ← serialized_as (serialize parsed)
  reject_if (contains_secret_like serialized) secret_like_output
  ok parsed
