-- ===== src/Pi/Secrets.antt =====
-- `contains_secret_like` and `looks_like_jwt` of src/pi.rs.
use pi_tools.Common.{Bool, false, ◌&&◌, ◌||◌, List, [], ◌∷◌, leb, any}
use pi_tools.Text.{Text, codes, byte_len, starts_with, contains, to_ascii_lowercase}
use pi_tools.Paths.{split_on, split_whitespace}

abbrev pub are_segments : List Text → Bool
unfolding starts_with byte_len
are_segments (header ∷ payload ∷ signature ∷ []) =
    starts_with header (codes "eyj")
    && (leb 8 (byte_len header) && (leb 8 (byte_len payload) && leb 8 (byte_len signature)))
are_segments (header ∷ payload ∷ signature ∷ more ∷ rest) = false
are_segments (header ∷ payload ∷ []) = false
are_segments (header ∷ []) = false
are_segments [] = false

unfoldable pub looks_like_jwt : Text → Bool
unfolding split_on are_segments
looks_like_jwt value = are_segments (split_on b'.' value)

abbrev pub token_markers : List Text
token_markers =
    codes "github_pat_"
    ∷ codes "ghp_"
    ∷ codes "ghs_"
    ∷ codes "gho_"
    ∷ codes "ghu_"
    ∷ codes "ghr_"
    ∷ codes "sk-proj-"
    ∷ codes "-----begin private key"
    ∷ codes "bearer "
    ∷ []

abbrev pub field_markers : List Text
field_markers =
    codes "token="
    ∷ codes "token:"
    ∷ codes "password="
    ∷ codes "password:"
    ∷ codes "secret="
    ∷ codes "secret:"
    ∷ codes "private_key="
    ∷ codes "private-key="
    ∷ codes "api_key="
    ∷ codes "api-key="
    ∷ []

unfoldable pub contains_secret_like : Text → Bool
unfolding contains looks_like_jwt
contains_secret_like value =
    let normalized = to_ascii_lowercase value in
    any (contains normalized) token_markers
    || (contains normalized (codes "npm_")
        || (contains normalized (codes "akia")
            || (any looks_like_jwt (split_whitespace normalized)
                || any (contains normalized) field_markers)))
