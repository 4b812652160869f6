-- ===== src/Change/Inputs.antt =====
-- The gated inputs of a project and the stream of bytes that is hashed (change_detect.py).
use Prim.Native.String.{◌++◌ as text_append, compare}
use Prim.Native.Nat.{Ordering}
use borromean_rings.Base.{
  ℕ, String, Bool, true, false, not, ◌&&◌, ◌||◌, Option, none, some, List, [], ◌∷◌, ◌++◌, ◌==◌, any,
  keep, elem, if◌then◌else◌,
}
use borromean_rings.StateHome.{FilePath, path_eq}

-- A regular file of the project: its path below the root, and its bytes, `none` where reading
-- fails.
pub record Source : Type 0 where
  pub path : FilePath
  pub bytes : Option (List ℕ)

-- The two directories of the spine that are gated.
pub record Config : Type 0 where
  pub src_dir : FilePath
  pub tests_dir : FilePath

abbrev pub skip_dirs : List String
skip_dirs =
    "__pycache__" ∷ ".git" ∷ ".mypy_cache" ∷ ".pytest_cache" ∷ ".ruff_cache" ∷ ".meta-harness" ∷ []

-- `path.suffix == ".pyc"`: the name goes on before the last dot.
unfoldable pub has_pyc_suffix : String → Bool
has_pyc_suffix String.[] = false
has_pyc_suffix (String.◌∷◌ c s) = s == ".pyc" || has_pyc_suffix s

abbrev last_part : FilePath → String
last_part [] = ""
last_part (part ∷ []) = part
last_part (part ∷ next ∷ parts) = last_part (next ∷ parts)

-- Whether a path lies strictly below a directory.
unfoldable pub is_below : FilePath → FilePath → Bool
is_below [] [] = false
is_below [] (part ∷ path) = true
is_below (a ∷ dir) [] = false
is_below (a ∷ dir) (b ∷ path) = a == b && is_below dir path

unfoldable pub is_artifact : FilePath → Bool
unfolding has_pyc_suffix
is_artifact path = any (λ part. elem part skip_dirs) path || has_pyc_suffix (last_part path)

abbrev governed : FilePath → Source → Bool
governed rel s = is_below rel s.path && not (is_artifact s.path)

abbrev named : FilePath → Source → Bool
named rel s = path_eq rel s.path

-- `_iter_files`: the file itself where `rel` names one, and otherwise what lies below it.
abbrev own_or_below : List Source → List Source → List Source
own_or_below (s ∷ own) below = s ∷ []
own_or_below [] below = below

unfoldable pub iter_files : List Source → FilePath → List Source
unfolding is_below is_artifact path_eq
iter_files tree rel = own_or_below (keep (named rel) tree) (keep (governed rel) tree)

-- `collected[path] = None`: a path is collected once.
unfoldable pub collect : List Source → List Source → List Source
collect collected [] = collected
collect collected (s ∷ found) =
    collect (if any (λ t. named s.path t) collected then collected else collected ++ s ∷ []) found

-- The order of `sorted` on paths: part by part.
abbrev text_lt : String → String → Bool
text_lt a b = elim (compare a b) [ Ordering.lt ↦ true | _ ↦ false ]

unfoldable pub path_lt : FilePath → FilePath → Bool
path_lt [] [] = false
path_lt [] (b ∷ q) = true
path_lt (a ∷ p) [] = false
path_lt (a ∷ p) (b ∷ q) = text_lt a b || (a == b && path_lt p q)

unfoldable pub insert_sorted : Source → List Source → List Source
insert_sorted s [] = s ∷ []
insert_sorted s (t ∷ ts) =
    let rest = insert_sorted s ts in if path_lt s.path t.path then s ∷ t ∷ ts else t ∷ rest

unfoldable pub sorted : List Source → List Source
unfolding insert_sorted path_lt
sorted [] = []
sorted (s ∷ ss) = insert_sorted s (sorted ss)

abbrev targets : Config → List FilePath
targets config =
    config.src_dir
    ∷ config.tests_dir
    ∷ ("checks" ∷ [])
    ∷ ("borromeanrings.toml" ∷ [])
    ∷ ("pyproject.toml" ∷ [])
    ∷ []

unfoldable pub collect_targets : List Source → List Source → List FilePath → List Source
unfolding iter_files collect
collect_targets tree collected [] = collected
collect_targets tree collected (rel ∷ rels) =
    collect_targets tree (collect collected (iter_files tree rel)) rels

unfoldable pub gated_paths : List Source → Config → List Source
unfolding collect_targets sorted
gated_paths tree config = sorted (collect_targets tree [] (targets config))

-- `path.as_posix()` of a relative path.
unfoldable pub as_posix : FilePath → String
as_posix [] = "."
as_posix (part ∷ []) = part
as_posix (part ∷ next ∷ parts) = text_append part (text_append "/" (as_posix (next ∷ parts)))

-- UTF-8 encoding and the hexadecimal SHA-256 digest of a stream of bytes.
pub record Hashing : Type 0 where
  pub encode : String → List ℕ
  pub sha256 : List ℕ → String

-- What is fed to the digest; `none` where a file cannot be read.
abbrev pub frame : Hashing → FilePath → List ℕ → List ℕ → List ℕ
frame h path bytes rest = h.encode (as_posix path) ++ 0 ∷ (bytes ++ 0 ∷ rest)

abbrev pub frame_all : Hashing → FilePath → Option (List ℕ) → Option (List ℕ) → Option (List ℕ)
frame_all h path (some bytes) (some rest) = some (frame h path bytes rest)
frame_all h path none rest = none
frame_all h path (some bytes) none = none

unfoldable pub stream : Hashing → List Source → Option (List ℕ)
stream h [] = some []
stream h (s ∷ ss) = frame_all h s.path s.bytes (stream h ss)

abbrev pub digest_of : Hashing → Option (List ℕ) → Option String
digest_of h none = none
digest_of h (some bytes) = some (h.sha256 bytes)

unfoldable pub compute_state_hash : Hashing → List Source → Config → Option String
compute_state_hash h tree config = digest_of h (stream h (gated_paths tree config))
