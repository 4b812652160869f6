-- ===== src/Examples/HookDedupe.antt =====
-- Claims on one event at concrete times.
use borromean_rings.Base.{◌+◌, ◌<◌, String, ◌≡◌, refl, ◌↔◌, true, false, none, some, arith}
use borromean_rings.HookDedupe.{Markers, proceed, yield, os_error, claim, release}
use borromean_rings.HookDedupe.Claims.{claim-claim}

abbrev digest : String → String
digest key = "9f86d081884c7d659a2feaa0c55ad015"

abbrev empty : Markers
empty = record {
  times = λ name. none;
  makeable = true;
  creatable = true;
  statable = true;
  touchable = true;
  removable = true;
}

-- A stale marker whose time cannot be set.
abbrev stuck : Markers
stuck = record empty { times = λ name. some 3; touchable = false }

stuck_test : (claim digest "stop" "s1" 5 90 stuck).1 ≡ os_error
unfolding claim
stuck_test = refl

claim-claim_example :
    ((7 < 4 + 5)
      ↔ ((claim digest "stop" "s1" 5 7 (claim digest "stop" "s1" 5 4 empty).0).1 ≡ yield))
    × ((claim digest "stop" "s1" 5 7
          (release digest "stop" "s1" (claim digest "stop" "s1" 5 4 empty).0)).1
        ≡ proceed)
unfolding claim
claim-claim_example =
    claim-claim digest "stop" "s1" 5 4 7 empty refl refl refl refl refl refl (omega arith)
