-- ===== src/Examples/Lane.antt =====
-- Lanes and declared fast paths at concrete inputs.
use borromean_rings.Base.{All}
use borromean_rings.Words.{join_with, split_words}
use borromean_rings.Lane.{fast, fast_test_paths, fast_pytest_args, quote, needs_quotes}
use borromean_rings.Lane.Narrowing.{IsSafe}
use borromean_rings.Lane.Arguments.{paths_in, fast_pytest_args-words}
use borromean_rings.Base.{String, ◌≡◌, refl, Option, none, some, List, [], ◌∷◌, ◌==◌, if◌then◌else◌}
use borromean_rings.Base.Text.{is_space}
use borromean_rings.Base.Decimal.{strip}
use borromean_rings.Lane.{
  full, resolve_lane, is_kept, is_safe_from, is_parent, parent_after_slash, has_parent,
  validate_fast_paths,
}

abbrev heavy_env : String → Option String
heavy_env name = if name == "BORROMEANRINGS_HEAVY" then some "1" else none

heavy_test : (resolve_lane ("--fast" ∷ []) heavy_env).lane ≡ full
unfolding resolve_lane
heavy_test = refl

parent_test : validate_fast_paths ("tests/../src" ∷ []) ≡ none
unfolding validate_fast_paths is_kept strip is_space is_safe_from has_parent is_parent
    parent_after_slash
parent_test = refl

abbrev declared : List String
declared = " tests/unit " ∷ "tests/test_lane.py" ∷ []

accepted : fast_pytest_args declared fast ≡ some "tests/unit tests/test_lane.py"
unfolding fast_pytest_args fast_test_paths validate_fast_paths is_kept strip is_space is_safe_from
    has_parent is_parent parent_after_slash quote needs_quotes join_with
accepted = refl

fast_pytest_args-words_example :
    (split_words "tests/unit tests/test_lane.py" ≡ paths_in declared fast)
    × All IsSafe (split_words "tests/unit tests/test_lane.py")
fast_pytest_args-words_example =
    fast_pytest_args-words declared fast "tests/unit tests/test_lane.py" accepted
