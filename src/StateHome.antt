-- ===== src/StateHome.antt =====
-- Where harness state lives: outside the governed tree (state_home.py). A path is the list of its
-- components, as `pathlib` keeps an absolute path; the digest of a text is the parameter `sha256`.
pub mod Inside
use Prim.Native.Char.{code}
use Prim.Native.String
use Prim.Native.String.{◌++◌ as text_append}
use borromean_rings.Base.{
  ℕ, zero, suc, String, Bool, true, false, ◌&&◌, ◌||◌, List, [], ◌∷◌, ◌++◌, ◌==◌, nat_eq,
  if◌then◌else◌,
}

abbrev pub FilePath : Type 0
FilePath = List String

-- Why state cannot be located, read or written: the message of a `StateUnavailable`.
pub data Reason : Type 0 where
  no_state_root : Reason
  root_inside_project : FilePath → Reason
  cannot_read corrupt_count cannot_write : FilePath → Reason
  symlink_in_tree : String → Reason

-- Code that may raise `StateUnavailable` or, where `int` refuses a numeral, `ValueError`.
pub data Except {ℓ} (A : Type ℓ) : Type ℓ where
  ok : A → Except A
  unavailable : Reason → Except A
  value_error : Except A

infixl 5 ◌>>=◌
abbrev pub ◌>>=◌ {ℓ κ} : {A : Type ℓ} {B : Type κ} → Except A → (A → Except B) → Except B
ok a >>= f = f a
unavailable r >>= f = unavailable r
value_error >>= f = value_error

-- `os.path.isabs`
unfoldable pub is_abs : String → Bool
is_abs String.[] = false
is_abs (String.◌∷◌ c s) = nat_eq (code c) 47

-- The components of a path: the texts between slashes, empty ones and `.` dropped.
abbrev push_component : String → FilePath → FilePath
push_component part parts = if part == "" || part == "." then parts else part ∷ parts

unfoldable pub components_from : String → String → FilePath
components_from part String.[] = push_component part []
components_from part (String.◌∷◌ c s) =
    let rest = components_from "" s in
    let longer = components_from (text_append part (String.◌∷◌ c String.[])) s in
    if nat_eq (code c) 47 then push_component part rest else longer

-- `Path(text)` of an absolute path
unfoldable pub components : String → FilePath
unfolding components_from
components s = components_from "" s

-- `str(path)` of an absolute path
unfoldable pub path_text : FilePath → String
path_text [] = "/"
path_text (part ∷ []) = text_append "/" part
path_text (part ∷ next ∷ parts) = text_append (text_append "/" part) (path_text (next ∷ parts))

-- The two variables that are read, "" when unset.
pub record Env : Type 0 where
  pub xdg_state_home : String
  pub home : String

unfoldable pub state_root : Env → Except FilePath
unfolding is_abs components
state_root env =
    if is_abs env.xdg_state_home
    then ok (components env.xdg_state_home)
    else if is_abs env.home
    then ok (components env.home ++ ".local" ∷ "state" ∷ [])
    else unavailable no_state_root

-- The first characters of a text.
abbrev pub take_chars : ℕ → String → String
take_chars zero s = ""
take_chars (suc n) String.[] = ""
take_chars (suc n) (String.◌∷◌ c s) = String.◌∷◌ c (take_chars n s)

abbrev pub digest_chars : ℕ
digest_chars = 32

unfoldable pub project_digest : (String → String) → FilePath → String
unfolding path_text
project_digest sha256 resolved_project =
    take_chars digest_chars (sha256 (path_text resolved_project))

unfoldable pub project_state_dir : (String → String) → Env → FilePath → Except FilePath
project_state_dir sha256 env resolved_project = state_root env >>= λ root.
    ok (root ++ "borromeanrings" ∷ project_digest sha256 resolved_project ∷ [])

-- `os.path.commonpath([path, root])`
unfoldable pub common_path : FilePath → FilePath → FilePath
common_path [] root = []
common_path (a ∷ path) [] = []
common_path (a ∷ path) (b ∷ root) =
    let rest = common_path path root in if a == b then a ∷ rest else []

unfoldable pub path_eq : FilePath → FilePath → Bool
path_eq [] [] = true
path_eq (a ∷ p) (b ∷ q) = a == b && path_eq p q
path_eq p q = false

unfoldable pub is_inside : FilePath → FilePath → Bool
unfolding common_path path_eq
is_inside path root = path_eq (common_path path root) root
