-- ===== src/Change/Record.antt =====
-- The record of the last green state, kept outside the project (change_detect.py).
use borromean_rings.Base.{
  String, Bool, false, Option, none, some, List, [], ◌∷◌, ◌++◌, ◌==◌, if◌then◌else◌,
}
use borromean_rings.Base.Decimal.{strip}
use borromean_rings.StateHome.{
  FilePath, Except, ok, unavailable, root_inside_project, Env, project_state_dir, path_eq,
  is_inside, ◌>>=◌,
}
use borromean_rings.Change.Inputs.{Source, Config, Hashing, compute_state_hash}

-- The environment, the resolved project, `Path.exists`, `Path.resolve` and the hashing.
pub record Host : Type 0 where
  pub env : Env
  pub project : FilePath
  pub exists : FilePath → Bool
  pub resolve : FilePath → FilePath
  pub hex_digest : String → String
  pub hashing : Hashing

-- The texts outside the tree (`none` where reading fails) and where writing succeeds.
pub record Store : Type 0 where
  pub texts : FilePath → Option String
  pub writable : FilePath → Bool

unfoldable pub state_path : Host → Except FilePath
state_path host = do
  directory ← project_state_dir host.hex_digest host.env host.project
  let root = if host.exists directory then host.resolve directory else directory
  (if is_inside root host.project
      then unavailable (root_inside_project root)
      else ok (directory ++ "last_green_state" ∷ []))

-- `text.strip() or None`
abbrev or_none : String → Option String
or_none s = if s == "" then none else some s

abbrev stripped : Option String → Option String
stripped none = none
stripped (some s) = or_none (strip s)

abbrev read_at : Store → Except FilePath → Option String
read_at store (ok path) = stripped (store.texts path)
read_at store e = none

unfoldable pub read_last_green : Host → Store → Option String
read_last_green host store = read_at store (state_path host)

abbrev put : Store → FilePath → String → Store
put store path s = record store {
  texts = λ other. if path_eq path other then some s else store.texts other;
}

-- The removal of an old record inside the tree changes no text outside it.
abbrev pub record_at : Host → List Source → Config → Store → Except FilePath → Option String → Store
record_at host tree config store (ok path) (some hash) =
    if store.writable path then put store path hash else store
record_at host tree config store place hash = store

unfoldable pub record_green : Host → List Source → Config → Store → Store
record_green host tree config store =
    record_at host tree config store (state_path host) (compute_state_hash host.hashing tree config)

abbrev pub same_hash : String → Option String → Bool
same_hash last none = false
same_hash last (some hash) = hash == last

abbrev skip_on : Host → List Source → Config → Option String → Bool
skip_on host tree config none = false
skip_on host tree config (some last) = same_hash last (compute_state_hash host.hashing tree config)

unfoldable pub should_skip_gate : Host → List Source → Config → Store → Bool
should_skip_gate host tree config store = skip_on host tree config (read_last_green host store)
