-- ===== src/Ci/Bounded.antt =====
-- `run_bounded_argv_with_optional_input` of src/ci.rs, but for the process itself: what is refused before
-- it, and what is made of its output.
use pi_tools.Common.{
  ℕ, ◌*◌, Bool, List, [], ◌∷◌, ltb, length, is_empty, any, Result, ok, err, ◌>>=◌, ◌>>◌, reject_if,
}
use pi_tools.Text.{Text, contains_any}
use pi_tools.Ci.{CiError, empty_command, unsafe_command, output_too_large, message}

abbrev pub max_command_output_bytes : ℕ
max_command_output_bytes = 256 * 1024

pub record CommandResult : Type 0 where
  pub argv : List Text
  pub success : Bool
  pub stdout : Text
  pub stderr : Text

-- Before the process is started.
unfoldable pub validate_argv : List Text → Result CiError (Unit {0})
validate_argv argv = do
  reject_if (is_empty argv) empty_command
  reject_if (any (contains_any (0 ∷ 0xd ∷ 0xa ∷ [])) argv) unsafe_command

-- What a process that ended leaves; its output as bytes.
pub record Finished : Type 0 where
  pub success : Bool
  pub stdout : List ℕ
  pub stderr : List ℕ

abbrev read_limited : List ℕ → Result CiError (List ℕ)
read_limited bytes = do
  reject_if (ltb max_command_output_bytes (length bytes)) output_too_large
  ok bytes

unfoldable pub finished :
    (List ℕ → Text) → List Text → Result CiError Finished → Result CiError CommandResult
finished from_utf8_lossy argv answer = do
  result ← answer
  stdout ← read_limited result.stdout
  stderr ← read_limited result.stderr
  ok record {
    argv = argv;
    success = result.success;
    stdout = from_utf8_lossy stdout;
    stderr = from_utf8_lossy stderr;
  }

-- Of an error its message is kept.
abbrev pub printed {ℓ} : {A : Type ℓ} → Result CiError A → Result Text A
printed (err e) = err (message e)
printed (ok a) = ok a
