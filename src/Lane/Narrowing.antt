-- ===== src/Lane/Narrowing.antt =====
-- When a run is narrowed, and that the paths it is narrowed to are safe.
use Prim.Native.Char.{code}
use borromean_rings.Base.{
  String, ◌≡◌, ◌≢◌, refl, sym, ◌∙◌, ◌↔◌, Bool, true, false, not, ◌||◌, ◌&&◌, Option, none, some,
  List, [], ◌∷◌, ◌==◌, elem, All, arith, Bool-cases, inl, inr, eq_iff, nat_eq, map, ap, subst,
  if◌then◌else◌,
}
use borromean_rings.Base.Decimal.{strip}
use borromean_rings.StateHome.{is_abs}
use borromean_rings.Words.{starts_with, cut_front}
use borromean_rings.Lane.{
  fast, full, is_set, resolve_lane, is_inner, is_safe_from, has_parent, is_kept, push_path,
  validate_fast_paths, fast_test_paths, label_of, effective_lane,
}

full_is_not_fast : full ≢ fast
full_is_not_fast h = let e : (full == fast) ≡ true = (eq_iff full fast).1 h in cc

abbrev or_full : Option String → String
or_full none = full
or_full (some lane) = lane

full_not_fast : ◌≢◌ {A = Option String} (some full) (some fast)
full_not_fast h = full_is_not_fast (ap or_full h)

narrowed :
    (f h s eh es : Bool)
    → ((if f && not ((es || s) || (eh || h)) then fast else full) ≡ fast)
      ↔ ((f ≡ true) × (h ≡ false) × (s ≡ false) × (eh ≡ false) × (es ≡ false))
narrowed f h s eh es = ground (arith, full_is_not_fast)

-- A gate run is narrowed exactly when `--fast` is given and nothing asks for the heavy or the
-- scheduled tier, in the arguments or in the environment.
pub resolve_lane-fast :
    (args : List String) (env : String → Option String)
    → ((resolve_lane args env).lane ≡ fast) ↔ (
        (elem "--fast" args ≡ true)
        × (elem "--heavy" args ≡ false)
        × (elem "--scheduled" args ≡ false)
        × (is_set env "BORROMEANRINGS_HEAVY" "1" ≡ false)
        × (is_set env "BORROMEANRINGS_SCHEDULED" "1" ≡ false))
unfolding resolve_lane
resolve_lane-fast args env =
    narrowed (elem "--fast" args) (elem "--heavy" args) (elem "--scheduled" args)
      (is_set env "BORROMEANRINGS_HEAVY" "1") (is_set env "BORROMEANRINGS_SCHEDULED" "1")

-- Every character of a kept path is a letter, a digit, `.`, `_`, `-` or `/`.
abbrev pub all_plain : String → Bool
all_plain String.[] = true
all_plain (String.◌∷◌ c s) = (is_inner (code c) || nat_eq (code c) 47) && all_plain s

safe-plain : (begins : Bool) (s : String) → is_safe_from begins s ≡ true → all_plain s ≡ true
unfolding is_safe_from
safe-plain begins String.[] h = refl
safe-plain true (String.◌∷◌ c s) h = ground (arith, safe-plain false s)
safe-plain false (String.◌∷◌ c s) h = ground (arith, safe-plain false s, safe-plain true s)

-- A path that cannot leave the project or break the command line it is put on.
abbrev pub IsSafe : String → Type 0
IsSafe path =
    (path ≢ "")
    × (all_plain path ≡ true)
    × (is_abs path ≡ false)
    × (has_parent path ≡ false)
    × (starts_with path "-" ≡ false)

safe-relative : (s : String) → is_safe_from true s ≡ true → is_abs s ≡ false
unfolding is_safe_from is_abs
safe-relative String.[] h = refl
safe-relative (String.◌∷◌ c s) h = ground arith

safe-argument : (s : String) → is_safe_from true s ≡ true → starts_with s "-" ≡ false
unfolding is_safe_from starts_with cut_front
safe-argument String.[] h = refl
safe-argument (String.◌∷◌ c s) h = ground arith

kept-IsSafe : (path : String) → is_kept path ≡ true → IsSafe path
unfolding is_kept
kept-IsSafe path h =
    ground (arith, eq_iff path "", safe-plain true path, safe-relative path, safe-argument path)

pushed :
    (path : String) (more : Option (List String)) (clean : List String)
    → push_path path more ≡ some clean
    → (rest : List String) × (more ≡ some rest) × (clean ≡ path ∷ rest)
pushed path none clean h = cc
pushed path (some rest) clean h = (rest, refl, ground arith)

refused :
    (raw : String) (declared : List String)
    → is_kept (strip raw) ≡ false
    → validate_fast_paths (raw ∷ declared) ≡ none
unfolding validate_fast_paths
refused raw declared e = rw e

accepted :
    (raw : String) (declared : List String)
    → is_kept (strip raw) ≡ true
    → validate_fast_paths (raw ∷ declared) ≡ push_path (strip raw) (validate_fast_paths declared)
unfolding validate_fast_paths
accepted raw declared e = rw e

validated :
    (raw : String) (declared clean : List String)
    → validate_fast_paths (raw ∷ declared) ≡ some clean
    → (rest : List String) × (is_kept (strip raw) ≡ true)
      × (validate_fast_paths declared ≡ some rest)
      × (clean ≡ strip raw ∷ rest)
unfolding validate_fast_paths
validated raw declared clean h = elim (Bool-cases (is_kept (strip raw))) [
  | inl e ↦
      let (rest, f, g) =
        pushed (strip raw) (validate_fast_paths declared) clean
          (sym (accepted raw declared e) ∙ h) in
      (rest, e, f, g)
  | inr e ↦ cc (refused raw declared e, h)
]

-- Where the declared fast paths are accepted, they are the declared ones without the white space
-- round them, and each is safe: not empty, of plain characters, relative, with no `..` in it,
-- and does not begin as an option does.
pub validate_fast_paths-IsSafe :
    (declared clean : List String)
    → validate_fast_paths declared ≡ some clean
    → All IsSafe clean × (clean ≡ map strip declared)
unfolding validate_fast_paths
validate_fast_paths-IsSafe [] [] h = (tt, refl)
validate_fast_paths-IsSafe [] (path ∷ clean) h = cc
validate_fast_paths-IsSafe (raw ∷ declared) clean h =
    let (rest, k, f, g) = validated raw declared clean h in
    let (safe, same) = validate_fast_paths-IsSafe declared rest f in
    (subst (All IsSafe) (sym g) (kept-IsSafe (strip raw) k, safe), g ∙ ap (◌∷◌ (strip raw)) same)

labelled :
    (paths : Option (List String))
    → (label_of true paths ≡ some fast)
      ↔ ((p : String) × (ps : List String) × (paths ≡ some (p ∷ ps)))
labelled none = (λ h. cc, λ (p, ps, e). cc)
labelled (some []) = (λ h. absurd (full_not_fast h), λ (p, ps, e). cc)
labelled (some (p ∷ ps)) = (λ h. (p, ps, refl), λ h. refl)

full_label : (paths : Option (List String)) → label_of false paths ≡ some full
full_label none = refl
full_label (some []) = refl
full_label (some (p ∷ ps)) = refl

-- The reported lane is `fast` exactly when the lane is `fast` and some path was declared, all of
-- them valid; so a run that ran everything is never reported as partial.
pub effective_lane-fast :
    (declared : List String) (lane : String)
    → (effective_lane declared lane ≡ some fast) ↔ (
        (lane ≡ fast)
        × (p : String) × (ps : List String) × (validate_fast_paths declared ≡ some (p ∷ ps)))
unfolding effective_lane fast_test_paths
effective_lane-fast declared lane = elim (Bool-cases (lane == fast)) [
  | inl e ↦ rw e (
      let (to, from) = labelled (validate_fast_paths declared) in
      (
        λ h. let (p, ps, q) = to h in ((eq_iff lane fast).0 e, p, ps, q),
        λ (_, p, ps, q). from (p, ps, q),
      ))
  | inr e ↦ rw e (λ h. absurd (full_not_fast h), λ (q, _, _, _). cc (e, (eq_iff lane fast).1 q))
]
