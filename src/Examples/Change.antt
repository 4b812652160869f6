-- ===== src/Examples/Change.antt =====
-- Gated inputs and skips at a concrete project.
use Prim.Native.Char.{code}
use borromean_rings.Base.{
  ℕ, String, ◌≡◌, refl, true, false, none, some, List, [], ◌∷◌, ◌++◌, map, All, sym, ◌∙◌, arith,
}
use borromean_rings.Base.Decimal.{strip}
use borromean_rings.Base.Text.{is_space}
use borromean_rings.StateHome.{
  is_abs, components, path_text, project_digest, state_root, project_state_dir, is_inside,
}
use borromean_rings.Change.Inputs.{
  Source, Config, as_posix, stream, gated_paths, compute_state_hash,
}
use borromean_rings.Change.Record.{Host, Store, state_path}
use borromean_rings.Change.Digest.{seen, IsPlain}
use borromean_rings.Change.Skip.{IsRecorded, skip_unchanged, skip_same_inputs}

abbrev bytes_of : String → List ℕ
bytes_of String.[] = []
bytes_of (String.◌∷◌ c s) = code c ∷ bytes_of s

abbrev host : Host
host = record {
  env = record { xdg_state_home = ""; home = "/home/u" };
  project = "work" ∷ "p" ∷ [];
  exists = λ p. false;
  resolve = λ p. p;
  hex_digest = λ s. "0a1b";
  hashing = record { encode = bytes_of; sha256 = λ bytes. "9c5e" };
}

abbrev config : Config
config = record { src_dir = "src" ∷ []; tests_dir = "tests" ∷ [] }

abbrev store : Store
store = record { texts = λ p. none; writable = λ p. true }

abbrev source : List String → List ℕ → Source
source path bytes = record { path = path; bytes = some bytes }

abbrev tree : List Source
tree =
    source ("src" ∷ "b.py" ∷ []) (bytes_of "y")
    ∷ source ("README.md" ∷ []) (bytes_of "r")
    ∷ source ("src" ∷ "__pycache__" ∷ "a.pyc" ∷ []) []
    ∷ source ("src" ∷ "a.py" ∷ []) (bytes_of "x")
    ∷ []

tree_gated :
    gated_paths tree config
    ≡ source ("src" ∷ "a.py" ∷ []) (bytes_of "x") ∷ source ("src" ∷ "b.py" ∷ []) (bytes_of "y") ∷ []
unfolding gated_paths
tree_gated = refl

-- One file holds what the framing of the two would be.
abbrev joined : List Source
joined =
    source ("src" ∷ "a.py" ∷ []) (bytes_of "x" ++ 0 ∷ (bytes_of "src/b.py" ++ 0 ∷ bytes_of "y"))
    ∷ []

tree-IsRecorded : IsRecorded host tree config store
unfolding state_path project_state_dir state_root is_abs components is_inside project_digest
    path_text compute_state_hash gated_paths stream strip is_space
tree-IsRecorded = record {
  path = "home" ∷ "u" ∷ ".local" ∷ "state" ∷ "borromeanrings" ∷ "0a1b" ∷ "last_green_state" ∷ [];
  hash = "9c5e";
  located = refl;
  writes = refl;
  computed = refl;
  bare = refl;
  not_empty = refl;
}

joined-IsRecorded : IsRecorded host joined config store
unfolding state_path project_state_dir state_root is_abs components is_inside project_digest
    path_text compute_state_hash gated_paths stream strip is_space
joined-IsRecorded = record {
  path = "home" ∷ "u" ∷ ".local" ∷ "state" ∷ "borromeanrings" ∷ "0a1b" ∷ "last_green_state" ∷ [];
  hash = "9c5e";
  located = refl;
  writes = refl;
  computed = refl;
  bare = refl;
  not_empty = refl;
}

some_injective : {A : Type 0} {x y : A} → some x ≡ some y → x ≡ y
some_injective e = ground arith

skip_same_inputs_example :
    map (seen host.hashing) (gated_paths tree config)
    ≡ map (seen host.hashing) (gated_paths tree config)
unfolding gated_paths as_posix
skip_same_inputs_example =
    skip_same_inputs host tree tree config store tree-IsRecorded
      (λ x y e f g. some_injective (sym e ∙ f)) plain plain
      (skip_unchanged host tree config store tree-IsRecorded)
  where
    plain : All (IsPlain host.hashing) (gated_paths tree config)
    plain = omega arith
