-- ===== src/Pi/Laws.antt =====
-- What a request that `validate` accepts sends to a worker.
use pi_tools.Common.{
  ℕ, ◌+◌, ◌≤◌, ◌≡◌, refl, arith, Bool, false, not, ◌||◌, List, [], ◌∷◌, ◌++◌, All, Apart, In, any,
  all, length, ltb, ok, reject_if, reject_if-ok, >>=-eq-ok, or_parts, is_empty,
}
use pi_tools.Text.{Text, codes, text_eq, byte_len, contains_any, is_blank}
use pi_tools.Text.Laws.{any_text-In, text_eq_iff}
use pi_tools.Paths.{components, resolve, is_normal, is_absolute}
use pi_tools.Paths.Laws.{names, resolve-names}
use pi_tools.Pi.Secrets.{contains_secret_like}
use pi_tools.Pi.{
  PiSnapshotFile, PiJobRequest, max_snapshot_files, max_snapshot_file_bytes, max_snapshot_bytes,
  invalid_path, validate_relative_path, validate_paths, saturating_add, validate_file,
  validate_files, is_secret_like, validate,
}

-- The path leads below any directory that it starts from.
abbrev pub Confined : Text → Type 0
Confined path =
    (here : List Text) → resolve here (components path) ≡ names (components path) ++ here

abbrev pub SafeFile : List Text → PiSnapshotFile → Type 0
SafeFile allowed_paths file =
    Confined file.path
    × In file.path allowed_paths
    × (byte_len file.content ≤ max_snapshot_file_bytes)
    × (contains_secret_like file.content ≡ false)

abbrev pub total_bytes : List PiSnapshotFile → ℕ
total_bytes [] = 0
total_bytes (file ∷ files) = byte_len file.content + total_bytes files

abbrev pub same_path : PiSnapshotFile → PiSnapshotFile → Bool
same_path a b = text_eq a.path b.path

pub record Accepted (request : PiJobRequest) : Type 0 where
  pub version : request.protocol_version ≡ codes "pitools.pi/v1"
  pub named : is_blank request.nonce ≡ false
  pub snapshot : Confined request.snapshot_path
  pub allowed : All Confined request.allowed_paths
  pub few : length request.snapshot_files ≤ max_snapshot_files
  pub files : All (SafeFile request.allowed_paths) request.snapshot_files
  pub apart : Apart same_path request.snapshot_files
  pub small : total_bytes request.snapshot_files ≤ max_snapshot_bytes
  pub evidence : is_secret_like request.failure_evidence ≡ false

validate_relative_path-Confined :
    (path : Text) → validate_relative_path path ≡ ok tt → Confined path
unfolding validate_relative_path
validate_relative_path-Confined path h here =
    let bad =
      is_empty path
      || (is_absolute path
          || (contains_any (b'\\' ∷ []) path || not (all is_normal (components path)))) in
    let good : bad ≡ false = reject_if-ok bad (invalid_path path) h in
    resolve-names here (components path) (ground (arith, good))

validate_paths-Confined : (paths : List Text) → validate_paths paths ≡ ok tt → All Confined paths
unfolding validate_paths
validate_paths-Confined [] h = tt
validate_paths-Confined (path ∷ paths) h =
    let (u, one, more) = >>=-eq-ok (validate_relative_path path) _ h in
    (validate_relative_path-Confined path one, validate_paths-Confined paths more)

saturating_add-le :
    (a b : ℕ) → ltb max_snapshot_bytes (saturating_add a b) ≡ false → saturating_add a b ≡ a + b
saturating_add-le a b h = ground (arith, h)

validate_file-ok :
    (allowed_paths snapshot_paths : List Text) (bytes : ℕ) (file : PiSnapshotFile)
    → validate_file allowed_paths snapshot_paths bytes file ≡ ok tt
    → SafeFile allowed_paths file
      × (any (λ path. text_eq path file.path) snapshot_paths ≡ false)
      × (saturating_add bytes (byte_len file.content) ≡ bytes + byte_len file.content)
      × (bytes + byte_len file.content ≤ max_snapshot_bytes)
unfolding validate_file
validate_file-ok allowed_paths snapshot_paths bytes file h =
    let known = any (λ path. text_eq path file.path) allowed_paths in
    let twice = any (λ path. text_eq path file.path) snapshot_paths in
    let sum = saturating_add bytes (byte_len file.content) in
    let (u1, e1, h1) = >>=-eq-ok (validate_relative_path file.path) _ h in
    let (u2, e2, h2) = >>=-eq-ok (reject_if (not known || twice) _) _ h1 in
    let (u3, e3, h3) =
      >>=-eq-ok (reject_if (ltb max_snapshot_file_bytes (byte_len file.content)) _) _ h2 in
    let (u4, e4, h4) = >>=-eq-ok (reject_if (ltb max_snapshot_bytes sum) _) _ h3 in
    let listed : (not known || twice) ≡ false = reject_if-ok _ _ e2 in
    let small : ltb max_snapshot_file_bytes (byte_len file.content) ≡ false = reject_if-ok _ _ e3 in
    let within : ltb max_snapshot_bytes sum ≡ false = reject_if-ok _ _ e4 in
    let exact = saturating_add-le bytes (byte_len file.content) within in
    (
      (
        validate_relative_path-Confined file.path e1,
        any_text-In file.path allowed_paths (ground (arith, listed)),
        ground (arith, small),
        reject_if-ok (contains_secret_like file.content) _ h4,
      ),
      ground (arith, listed),
      exact,
      ground (arith, exact, within),
    )

-- The paths before the files differ from those of the files.
abbrev Fresh : List Text → List PiSnapshotFile → Type 0
Fresh paths files = All (λ f. any (λ path. text_eq path f.path) paths ≡ false) files

Fresh-behind :
    (path : Text) (paths : List Text) (files : List PiSnapshotFile)
    → Fresh (path ∷ paths) files
    → Fresh paths files
Fresh-behind path paths [] h = tt
Fresh-behind path paths (f ∷ files) h = (
  (or_parts {a = text_eq path f.path} {b = any (λ p. text_eq p f.path) paths} h.0).1,
  Fresh-behind path paths files h.1,
)

Fresh-first :
    (file : PiSnapshotFile) (paths : List Text) (files : List PiSnapshotFile)
    → Fresh (file.path ∷ paths) files
    → any (same_path file) files ≡ false
Fresh-first file paths [] h = refl
Fresh-first file paths (f ∷ files) h =
    let (other, rest) =
      or_parts {a = text_eq file.path f.path} {b = any (λ p. text_eq p f.path) paths} h.0 in
    rw other (Fresh-first file paths files h.1)

validate_files-ok :
    (allowed_paths paths : List Text) (bytes : ℕ) (files : List PiSnapshotFile)
    → bytes ≤ max_snapshot_bytes
    → validate_files allowed_paths paths bytes files ≡ ok tt
    → All (SafeFile allowed_paths) files
      × Fresh paths files
      × Apart same_path files
      × (bytes + total_bytes files ≤ max_snapshot_bytes)
unfolding validate_files
validate_files-ok allowed_paths paths bytes [] small h = (tt, tt, tt, omega (arith, small))
validate_files-ok allowed_paths paths bytes (file ∷ files) small h =
    let (u, one, more) = >>=-eq-ok (validate_file allowed_paths paths bytes file) _ h in
    let (safe, fresh, exact, within) = validate_file-ok allowed_paths paths bytes file one in
    let (safe_rest, fresh_rest, apart, total) =
      validate_files-ok allowed_paths (file.path ∷ paths) (bytes + byte_len file.content) files
        within (rw exact at more) in
    (
      (safe, safe_rest),
      (fresh, Fresh-behind file.path paths files fresh_rest),
      (Fresh-first file paths files fresh_rest, apart),
      omega (arith, total),
    )

-- What a request that is accepted sends: at most 16 files, each of another path that is allowed and leads
-- below the snapshot, small enough one by one and in total, and nothing in them that looks like a secret.
pub validate-Accepted : (request : PiJobRequest) → validate request ≡ ok tt → Accepted request
unfolding validate
validate-Accepted request h =
    let unnamed =
      not (text_eq request.protocol_version (codes "pitools.pi/v1"))
      || (is_blank request.repository
          || (is_blank request.snapshot_path
              || (is_blank request.policy_revision || is_blank request.nonce))) in
    let many = ltb max_snapshot_files (length request.snapshot_files) in
    let (u1, e1, h1) = >>=-eq-ok (reject_if unnamed _) _ h in
    let (u2, e2, h2) = >>=-eq-ok (validate_relative_path request.snapshot_path) _ h1 in
    let (u3, e3, h3) = >>=-eq-ok (validate_paths request.allowed_paths) _ h2 in
    let (u4, e4, h4) = >>=-eq-ok (reject_if many _) _ h3 in
    let (u5, e5, h5) =
      >>=-eq-ok (validate_files request.allowed_paths [] 0 request.snapshot_files) _ h4 in
    let named : unnamed ≡ false = reject_if-ok _ _ e1 in
    let few : many ≡ false = reject_if-ok _ _ e4 in
    let (safe, fresh, apart, total) =
      validate_files-ok request.allowed_paths [] 0 request.snapshot_files (omega arith) e5 in
    record {
      version = (text_eq_iff _ _).0 (ground (arith, named));
      named = ground (arith, named);
      snapshot = validate_relative_path-Confined request.snapshot_path e2;
      allowed = validate_paths-Confined request.allowed_paths e3;
      few = ground (arith, few);
      files = safe;
      apart = apart;
      small = omega (arith, total);
      evidence = reject_if-ok (is_secret_like request.failure_evidence) _ h5;
    }
