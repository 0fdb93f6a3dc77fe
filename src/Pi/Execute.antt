-- ===== src/Pi/Execute.antt =====
-- `PiWorker::execute` and `NatsPiWorker::execute` of src/pi.rs. JSON, the process and the message broker
-- are parameters: how they fail is theirs, what they answer with is checked here.
use pi_tools.Common.{
  ℕ, Bool, false, not, ◌||◌, Option, none, some, List, [], ◌∷◌, ◌++◌, ltb, length, is_empty, any,
  find, Result, ok, err, ◌>>=◌, ◌>>◌, reject_if, ok_or,
}
use pi_tools.Text.{Text, codes, text_eq, contains_any}
use pi_tools.Paths.{Component, root_dir, cur_dir, parent_dir, normal, components, split_on}
use pi_tools.Pi.{
  PiJobRequest, PiJobResult, PiError, empty_command, unsafe_command, input_too_large,
  output_too_large, empty_output, invalid_result, worker_failed, serialization, max_input_bytes,
  max_output_bytes, validate, validate_result,
}

abbrev pub Bytes : Type 0
Bytes = List ℕ

-- `Path::file_name`.
abbrev pub last_name : List Component → Option Text
last_name [] = none
last_name (normal name ∷ []) = some name
last_name (root_dir ∷ []) = none
last_name (cur_dir ∷ []) = none
last_name (parent_dir ∷ []) = none
last_name (c ∷ d ∷ cs) = last_name (d ∷ cs)

abbrev shells : List Text
shells =
    codes "sh"
    ∷ codes "bash"
    ∷ codes "dash"
    ∷ codes "zsh"
    ∷ codes "fish"
    ∷ codes "cmd"
    ∷ codes "powershell"
    ∷ codes "pwsh"
    ∷ []

unfoldable pub is_shell_name : Option Text → Bool
unfolding text_eq
is_shell_name none = false
is_shell_name (some name) = any (text_eq name) shells

unfoldable pub is_shell_program : Text → Bool
unfolding components is_shell_name
is_shell_program program = is_shell_name (last_name (components program))

-- What a process leaves: whether it succeeded, its output and its errors.
pub record Finished : Type 0 where
  pub success : Bool
  pub output : Bytes
  pub errors : Bytes

abbrev pub first_of : List Text → Option (Text × List Text)
first_of [] = none
first_of (program ∷ args) = some (program, args)

abbrev pub or_error {ℓ} : {A : Type ℓ} → (Text → PiError) → Result Text A → Result PiError A
or_error wrap (err message) = err (wrap message)
or_error wrap (ok a) = ok a

module _ (serialize : PiJobResult → Result Text Text) (to_vec : PiJobRequest → Result Text Bytes)
    (from_slice : Bytes → Result Text PiJobResult) (from_utf8_lossy : Bytes → Text) where
  unfoldable pub answer : PiJobRequest → Bytes → Result PiError PiJobResult
  unfolding validate_result
  answer request value = do
    parsed ← or_error invalid_result (from_slice value)
    validate_result serialize request parsed

  -- `PiWorker::execute`; `spawn` starts the command with its arguments and no environment but the path, and
  -- `finish` writes a text to it and waits for its end.
  unfoldable pub execute :
      {Child : Type 0}
      → (Text → List Text → Result PiError Child)
      → (Child → Bytes → Result PiError Finished)
      → List Text
      → PiJobRequest
      → Result PiError PiJobResult
  unfolding validate is_shell_program split_on answer
  execute spawn finish command request = do
    (program, args) ← ok_or (first_of command) empty_command
    validate request
    reject_if (any (contains_any (0 ∷ 0xd ∷ 0xa ∷ [])) command || is_shell_program program)
        unsafe_command
    child ← spawn program args
    input ← or_error serialization (to_vec request)
    reject_if (ltb max_input_bytes (length input)) input_too_large
    result ← finish child (input ++ (0xa ∷ []))
    reject_if
        (ltb max_output_bytes (length result.output) || ltb max_output_bytes (length result.errors))
        output_too_large
    reject_if (not result.success) (worker_failed (from_utf8_lossy result.errors))
    value ← ok_or (find (λ line. not (is_empty line)) (split_on 0xa result.output)) empty_output
    answer request value

  -- `NatsPiWorker::execute`; `send` asks over the broker and waits for the answer.
  unfoldable pub execute_nats :
      (Bytes → Result PiError Bytes) → PiJobRequest → Result PiError PiJobResult
  unfolding validate answer
  execute_nats send request = do
    validate request
    payload ← or_error serialization (to_vec request)
    reject_if (ltb max_input_bytes (length payload)) input_too_large
    message ← send payload
    reject_if (ltb max_output_bytes (length message)) output_too_large
    answer request message
