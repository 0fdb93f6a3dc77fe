-- ===== src/Pi/Bound.antt =====
-- What a result that a Pi worker's answer is accepted as has to do with its request.
use pi_tools.Common.{
  ◌≤◌, ◌≡◌, refl, ap, inl, inr, arith, true, false, not, ◌&&◌, ◌||◌, List, [], ◌∷◌, ◌++◌, All, In,
  any, length, is_empty, ltb, ◌==◌, Result, err, ok, reject_if, reject_if-ok, >>=-eq-ok,
  ok-injective, Result-cases, or_parts, ok_or, find,
}
use mathlib.Core.Path.{subst}
use pi_tools.Text.{Text, text_eq, contains_any}
use pi_tools.Text.Laws.{any_text-In, text_eq_iff}
use pi_tools.Paths.{split_on}
use pi_tools.Ci.Patch.{CiPatch, Admissible, max_patches, validate_patch_set}
use pi_tools.Ci.Laws.{validate_patch_set-Admissible}
use pi_tools.Pi.Secrets.{contains_secret_like}
use pi_tools.Pi.{
  PiJobRequest, PiJobResult, PiError, in_unit_range, validate, validate_proposed, serialized_as,
  validate_result, max_input_bytes, max_output_bytes,
}
use pi_tools.Pi.Laws.{Accepted, validate-Accepted}
use pi_tools.Pi.Execute.{
  Bytes, Finished, first_of, or_error, answer, is_shell_program, execute, execute_nats,
}

-- The result answers this request, proposes only files and patches that the request allows, asks for an
-- approval of the patches, and prints without anything that looks like a secret.
pub record Bound (serialize : PiJobResult → Result Text Text) (request : PiJobRequest)
    (result : PiJobResult) : Type 0 where
  pub version : result.protocol_version ≡ request.protocol_version
  pub job : result.job_id ≡ request.job_id
  pub nonce : result.nonce ≡ request.nonce
  pub certainty : in_unit_range result.confidence ≡ true
  pub files : All (λ path. In path request.allowed_paths) result.proposed_files
  pub approval : (is_empty result.proposed_patches || result.requires_approval) ≡ true
  pub few : length result.proposed_patches ≤ max_patches
  pub patches : All (Admissible request.allowed_paths) result.proposed_patches
  pub printed : Text
  pub prints : serialize result ≡ ok printed
  pub no_secret : contains_secret_like printed ≡ false

any-not-In :
    (allowed paths : List Text)
    → any (λ path. not (any (λ p. text_eq p path) allowed)) paths ≡ false
    → All (λ path. In path allowed) paths
any-not-In allowed [] h = tt
any-not-In allowed (path ∷ paths) h =
    let known = any (λ p. text_eq p path) allowed in
    let more = any (λ q. not (any (λ p. text_eq p q) allowed)) paths in
    let (one, rest) = or_parts {a = not known} {b = more} h in
    (any_text-In path allowed (ground (arith, one)), any-not-In allowed paths rest)

validate_proposed-Admissible :
    (allowed : List Text) (patches : List CiPatch)
    → validate_proposed allowed patches ≡ ok tt
    → (length patches ≤ max_patches) × All (Admissible allowed) patches
unfolding validate_proposed
validate_proposed-Admissible allowed [] h = (omega arith, tt)
validate_proposed-Admissible allowed (patch ∷ patches) h =
    elim (Result-cases (validate_patch_set (patch ∷ patches) allowed)) [
      | inl (failure, e) ↦ absurd (cc (rw (validate_proposed, e) at h))
      | inr (u, e) ↦
          let (some_patch, few, each) = validate_patch_set-Admissible (patch ∷ patches) allowed e in
          (few, each)
    ]

serialized_as-ok : (r : Result Text Text) {text : Text} → serialized_as r ≡ ok text → r ≡ ok text
serialized_as-ok (err message) h = cc
serialized_as-ok (ok text) h = ap ok (ok-injective (ok text) refl h)

module _ (serialize : PiJobResult → Result Text Text) (request : PiJobRequest) where
  validate_result-Bound :
      (parsed result : PiJobResult)
      → validate_result serialize request parsed ≡ ok result
      → Bound serialize request result
  unfolding validate_result
  validate_result-Bound parsed result h =
      let mismatch =
        not (text_eq parsed.protocol_version request.protocol_version)
        || (not (parsed.job_id == request.job_id)
            || (not (text_eq parsed.nonce request.nonce)
                || not (in_unit_range parsed.confidence))) in
      let stray =
        any (λ path. not (any (λ allowed. text_eq allowed path) request.allowed_paths))
          parsed.proposed_files in
      let unasked = not (is_empty parsed.proposed_patches) && not parsed.requires_approval in
      let (u1, e1, h1) = >>=-eq-ok (reject_if mismatch _) _ h in
      let (u2, e2, h2) = >>=-eq-ok (reject_if stray _) _ h1 in
      let (u3, e3, h3) = >>=-eq-ok (reject_if unasked _) _ h2 in
      let (u4, e4, h4) =
        >>=-eq-ok (validate_proposed request.allowed_paths parsed.proposed_patches) _ h3 in
      let (printed, e5, h5) = >>=-eq-ok (serialized_as (serialize parsed)) _ h4 in
      let (u6, e6, h6) = >>=-eq-ok (reject_if (contains_secret_like printed) _) _ h5 in
      let same : mismatch ≡ false = reject_if-ok _ _ e1 in
      let asked : unasked ≡ false = reject_if-ok _ _ e3 in
      let (few, each) =
        validate_proposed-Admissible request.allowed_paths parsed.proposed_patches e4 in
      subst (Bound serialize request) (ok-injective (ok parsed) refl h6) record {
        version = (text_eq_iff _ _).0 (ground (arith, same));
        job = ground (arith, same);
        nonce = (text_eq_iff _ _).0 (ground (arith, same));
        certainty = ground (arith, same);
        files = any-not-In request.allowed_paths parsed.proposed_files (reject_if-ok _ _ e2);
        approval = ground (arith, asked);
        few = few;
        patches = each;
        printed = printed;
        prints = serialized_as-ok _ e5;
        no_secret = reject_if-ok _ _ e6;
      }

  module _ (to_vec : PiJobRequest → Result Text Bytes)
      (from_slice : Bytes → Result Text PiJobResult) (from_utf8_lossy : Bytes → Text) where
    answer-Bound :
        (value : Bytes) (result : PiJobResult)
        → answer serialize to_vec from_slice from_utf8_lossy request value ≡ ok result
        → Bound serialize request result
    unfolding answer
    answer-Bound value result h =
        let (parsed, e, later) = >>=-eq-ok (or_error _ (from_slice value)) _ h in
        validate_result-Bound parsed result later

    -- However the process behaves, a result is taken from it only for an accepted request, and only if it
    -- answers that request, proposes only its files and admissible patches, which are marked for approval,
    -- has a confidence between 0 and 1, and prints nothing that looks like a secret.
    pub execute-Bound :
        {Child : Type 0} (spawn : Text → List Text → Result PiError Child)
        (finish : Child → Bytes → Result PiError Finished) (command : List Text)
        (result : PiJobResult)
        → execute serialize to_vec from_slice from_utf8_lossy spawn finish command request
          ≡ ok result
        → Accepted request × Bound serialize request result
    unfolding execute
    execute-Bound spawn finish command result h =
        let (first, e1, h1) = >>=-eq-ok (ok_or (first_of command) _) _ h in
        let (u2, e2, h2) = >>=-eq-ok (validate request) _ h1 in
        let unsafe = any (contains_any (0 ∷ 0xd ∷ 0xa ∷ [])) command || is_shell_program first.0 in
        let (u3, e3, h3) = >>=-eq-ok (reject_if unsafe _) _ h2 in
        let (child, e, started) = >>=-eq-ok (spawn first.0 first.1) _ h3 in
        let (input, e4, h4) = >>=-eq-ok (or_error _ (to_vec request)) _ started in
        let (u5, e5, h5) = >>=-eq-ok (reject_if (ltb max_input_bytes (length input)) _) _ h4 in
        let (finished, e6, h6) = >>=-eq-ok (finish child (input ++ (0xa ∷ []))) _ h5 in
        let long =
          ltb max_output_bytes (length finished.output)
          || ltb max_output_bytes (length finished.errors) in
        let (u7, e7, h7) = >>=-eq-ok (reject_if long _) _ h6 in
        let (u8, e8, h8) = >>=-eq-ok (reject_if (not finished.success) _) _ h7 in
        let (line, e9, h9) =
          >>=-eq-ok (ok_or (find (λ l. not (is_empty l)) (split_on 0xa finished.output)) _) _ h8 in
        (validate-Accepted request e2, answer-Bound line result h9)

    -- However the broker behaves, a result is taken from it only for an accepted request, and only if it is
    -- bound to that request.
    pub execute_nats-Bound :
        (send : Bytes → Result PiError Bytes) (result : PiJobResult)
        → execute_nats serialize to_vec from_slice from_utf8_lossy send request ≡ ok result
        → Accepted request × Bound serialize request result
    unfolding execute_nats
    execute_nats-Bound send result h =
        let (u1, e1, h1) = >>=-eq-ok (validate request) _ h in
        let (payload, e2, h2) = >>=-eq-ok (or_error _ (to_vec request)) _ h1 in
        let (u3, e3, h3) = >>=-eq-ok (reject_if (ltb max_input_bytes (length payload)) _) _ h2 in
        let (message, e4, h4) = >>=-eq-ok (send payload) _ h3 in
        let (u5, e5, h5) = >>=-eq-ok (reject_if (ltb max_output_bytes (length message)) _) _ h4 in
        (validate-Accepted request e1, answer-Bound message result h5)
