-- ===== src/Closure/Walk.antt =====
-- `_children` and `installed_closure` (closure.py). `requires` is `metadata.requires`, `none` for a
-- distribution that is not installed or states no requirements.
use borromean_rings.Base.{ℕ, zero, suc, Option, none, some, List, [], ◌∷◌, map, if◌then◌else◌}
use borromean_rings.Closure.Requirement.{
  Text, Unicode, contains, normalise, requirement_name, requirement_extras, is_optional,
}

-- A distribution and the extras asked of it.
abbrev pub Wanted : Type 0
Wanted = Text × List Text

pub record Index : Type 0 where
  pub unicode : Unicode
  pub requires : Text → Option (List Text)

abbrev add_child : Index → List Text → Text → Option Text → List Wanted → List Wanted
add_child ix wanted requirement none children = children
add_child ix wanted requirement (some []) children = children
add_child ix wanted requirement (some (c ∷ child)) children =
    if is_optional ix.unicode requirement wanted
    then children
    else (c ∷ child, requirement_extras ix.unicode requirement) ∷ children

unfoldable pub children_of : Index → List Text → List Text → List Wanted
children_of ix wanted [] = []
children_of ix wanted (requirement ∷ more) =
    add_child ix wanted requirement (requirement_name ix.unicode requirement)
      (children_of ix wanted more)

abbrev or_empty : Option (List Text) → List Text
or_empty none = []
or_empty (some requirements) = requirements

unfoldable pub children : Index → Text → List Text → List Wanted
unfolding children_of
children ix name wanted = children_of ix wanted (or_empty (ix.requires name))

-- `pending += more`, for a list whose last element is the head here.
abbrev pub push_all : List Wanted → List Wanted → List Wanted
push_all [] pending = pending
push_all (w ∷ more) pending = push_all more (w ∷ pending)

-- The loop over `pending`, whose last element is the head of the list here; `none` is that the
-- fuel ran out before the list was empty.
unfoldable pub walk : Index → ℕ → List Wanted → List Text → Option (List Text)
walk ix zero pending seen = none
walk ix (suc fuel) [] seen = some seen
walk ix (suc fuel) ((name, wanted) ∷ pending) seen =
    let again = walk ix fuel pending seen in
    let first = walk ix fuel (push_all (children ix name wanted) pending) (name ∷ seen) in
    if contains name seen then again else first

abbrev pub seed_of : Index → Wanted → Wanted
seed_of ix (name, wanted) = (normalise ix.unicode name, wanted)

abbrev pub seeded : Index → List Wanted → List Wanted
seeded ix seeds = push_all (map (seed_of ix) seeds) []

unfoldable pub installed_closure : Index → ℕ → List Wanted → Option (List Text)
unfolding walk
installed_closure ix fuel seeds = walk ix fuel (seeded ix seeds) []
