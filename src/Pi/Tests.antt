-- ===== src/Pi/Tests.antt =====
-- A request with one file, and a worker that diagnoses without proposing a patch.
use pi_tools.Common.{◌≡◌, refl, true, false, none, some, List, [], ◌∷◌, Result, ok}
use pi_tools.Text.{Text, codes}
use pi_tools.Pi.{PiJobRequest, PiJobResult, PiError, finite}
use pi_tools.Pi.Secrets.{contains_secret_like}
use pi_tools.Pi.Laws.{Accepted}
use pi_tools.Pi.Bound.{Bound, execute-Bound}
use pi_tools.Pi.Execute.{Bytes, Finished, execute, execute_nats}

abbrev request : PiJobRequest
request = record {
  protocol_version = codes "pitools.pi/v1";
  job_id = 7;
  repository = codes "o/r";
  snapshot_path = codes "snapshot";
  snapshot_files = record { path = codes "src/a.rs"; content = codes "fn main() {}" } ∷ [];
  allowed_paths = codes "src/a.rs" ∷ codes "src/b.rs" ∷ [];
  failure_evidence = some (codes "test failed");
  policy_revision = codes "1";
  nonce = codes "n";
}

abbrev diagnosis : PiJobResult
diagnosis = record {
  protocol_version = codes "pitools.pi/v1";
  job_id = 7;
  nonce = codes "n";
  diagnosis = codes "A test is wrong.";
  confidence = finite false 1 1;
  proposed_files = codes "src/b.rs" ∷ [];
  proposed_patches = [];
  validation_commands = [];
  risks = [];
  requires_approval = false;
  metadata = none;
}

abbrev print : PiJobResult → Result Text Text
print r = ok r.diagnosis

abbrev print_request : PiJobRequest → Result Text Bytes
print_request r = ok r.nonce

abbrev parse : Bytes → Result Text PiJobResult
parse bytes = ok diagnosis

abbrev same : Bytes → Text
same bytes = bytes

-- A process is what it was started with.
abbrev spawn : Text → List Text → Result PiError (List Text)
spawn program args = ok (program ∷ args)

abbrev complete : List Text → Bytes → Result PiError Finished
complete child input = ok record { success = true; output = codes "{}"; errors = [] }

abbrev send : Bytes → Result PiError Bytes
send payload = ok (codes "{}")

abbrev command : List Text
command = codes "node" ∷ codes "worker.js" ∷ []

executed : execute print print_request parse same spawn complete command request ≡ ok diagnosis
unfolding execute
executed = refl

execute-Bound_example : Accepted request × Bound print request diagnosis
execute-Bound_example =
    execute-Bound print request print_request parse same spawn complete command diagnosis executed

sent : execute_nats print print_request parse same send request ≡ ok diagnosis
unfolding execute_nats
sent = refl

token : contains_secret_like (codes "export TOKEN=x") ≡ true
unfolding contains_secret_like
token = refl
