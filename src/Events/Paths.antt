-- ===== src/Events/Paths.antt =====
-- `is_secret_bearing_path` and `normalise_diff_path` of src/depthfusion/core/event_store.py. A path
-- is the list of its characters' code points, and `lower` is Python's `str.lower`.
pub mod Segments
pub mod Secrets
pub mod DiffKeys
pub mod Spellings
use depthfusion.Ingest.Chunking.{strip}
use depthfusion.Common.Texts.{join_at, codes, split_at, Chars}
use depthfusion.Common.{
  drop, length, take, some, none, ◌&&◌, ◌==◌, ◌||◌, [], if◌then◌else◌, Option, is_empty, ◌∷◌, map,
  false, any, contains, leb, String, select, not, Bool, List, ℕ, String_eq, ℕ_eq, List_eq,
}

-- `text.replace("\\", "/")`
unfoldable pub fold_separators : Chars → Chars
fold_separators path = map (λ c. if c == 92 then 47 else c) path

-- `seg not in ("", ".")`
unfoldable pub is_segment : Chars → Bool
is_segment segment = not (is_empty segment || segment == codes ".")

unfoldable pub segments_of : Chars → List Chars
segments_of path = select is_segment (split_at 47 path)

-- `fnmatch` for a pattern whose only special character is `*`, which matches any characters
unfoldable pub skip_any : (Chars → Bool) → Chars → Bool
skip_any rest [] = rest []
skip_any rest (c ∷ name) = rest (c ∷ name) || skip_any rest name

unfoldable pub matches_glob : Chars → Chars → Bool
matches_glob [] name = is_empty name
matches_glob (p ∷ pattern_rest) name =
    if p == 42
    then skip_any (matches_glob pattern_rest) name
    else elim name [ [] ↦ false | c ∷ name_rest ↦ p == c && matches_glob pattern_rest name_rest ]

-- `_SECRET_BASENAME_GLOBS`
unfoldable pub secret_basename_globs : List String
secret_basename_globs =
    ".env" ∷ ".env.*" ∷ "*.env" ∷ "*.pem" ∷ "*.key" ∷ "*.p12" ∷ "*.pfx" ∷ "*.jks" ∷ "*.keystore"
    ∷ "*.keyfile" ∷ "secrets" ∷ "secrets.*" ∷ "secret" ∷ "secret.*" ∷ "id_rsa*" ∷ "id_dsa*"
    ∷ "id_ecdsa*" ∷ "id_ed25519*" ∷ "credentials" ∷ "credentials.*" ∷ "*.credentials" ∷ "*_rsa"
    ∷ "htpasswd" ∷ ".htpasswd" ∷ ".npmrc" ∷ ".pypirc" ∷ ".netrc" ∷ "*.p8" ∷ "*.ppk" ∷ "*.kdbx"
    ∷ "*.asc" ∷ "*.gpg" ∷ ".git-credentials" ∷ ".dockercfg" ∷ "*.tfvars" ∷ "*.tfvars.json" ∷ []

-- `_SECRET_DIR_SEGMENTS`
unfoldable pub secret_dir_segments : List String
secret_dir_segments =
    ".ssh" ∷ ".gnupg" ∷ ".aws" ∷ ".azure" ∷ ".kube" ∷ ".docker" ∷ "secrets" ∷ ".secrets" ∷ []

unfoldable pub is_secret_name : Chars → Bool
is_secret_name basename = any (λ glob. matches_glob (codes glob) basename) secret_basename_globs

unfoldable pub is_secret_dir : Chars → Bool
is_secret_dir segment = contains segment (map codes secret_dir_segments)

-- `segments[:-1]`
unfoldable pub all_but_last : List Chars → List Chars
all_but_last [] = []
all_but_last (segment ∷ []) = []
all_but_last (segment ∷ next ∷ segments) = segment ∷ all_but_last (next ∷ segments)

-- `segments[-1]` of segments that are not empty
unfoldable pub last_of : List Chars → Chars
last_of [] = []
last_of (segment ∷ []) = segment
last_of (segment ∷ next ∷ segments) = last_of (next ∷ segments)

-- The test on the segments, which are not empty
unfoldable pub has_secret : (Chars → Chars) → List Chars → Bool
has_secret lower segments =
    any (λ segment. is_secret_dir (lower segment)) (all_but_last segments)
    || is_secret_name (lower (last_of segments))

-- A text has no value that raises, so that the handler is not reached.
unfoldable pub is_secret_bearing_path : (Chars → Chars) → Chars → Bool
is_secret_bearing_path lower path =
    let normalised = fold_separators (strip path) in
    let segments = segments_of normalised in
    if is_empty normalised
    then false
    else if is_empty segments
    then false
    else has_secret lower segments

-- `_WINDOWS_DRIVE_RE.match`
unfoldable pub is_letter : ℕ → Bool
is_letter c = (leb 65 c && leb c 90) || (leb 97 c && leb c 122)

unfoldable pub is_windows_drive : Chars → Bool
is_windows_drive (letter ∷ colon ∷ slash ∷ path) =
    is_letter letter && colon == 58 && (slash == 92 || slash == 47)
is_windows_drive path = false

-- `text.startswith("/")`
unfoldable pub is_absolute : Chars → Bool
is_absolute [] = false
is_absolute (c ∷ path) = c == 47

-- `if remainder else None`
unfoldable pub key_of : List Chars → Option Chars
key_of [] = none
key_of (segment ∷ segments) = some (join_at 47 (segment ∷ segments))

-- A path inside the root loses the root's segments.
unfoldable pub relative_to : List Chars → List Chars → Option Chars
relative_to root segments =
    if is_empty root || not (take (length root) segments == root)
    then none
    else key_of (drop (length root) segments)

-- `none` for the project's path is `None`, and so is the empty text.
unfoldable pub normalise_diff_path : Chars → Option Chars → Option Chars
normalise_diff_path path project_path =
    let raw = strip path in
    let text = fold_separators raw in
    let segments = segments_of text in
    if is_empty raw || is_windows_drive raw
    then none
    else if is_empty segments || contains (codes "..") segments
    then none
    else if not (is_absolute text)
    then key_of segments
    else elim project_path [
      | none ↦ none
      | some [] ↦ none
      | some (c ∷ project) ↦
          relative_to (segments_of (fold_separators (strip (c ∷ project)))) segments
    ]
