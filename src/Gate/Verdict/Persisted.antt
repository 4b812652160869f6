-- ===== src/Gate/Verdict/Persisted.antt =====
-- What survives a write and a read of a verdict, and what a read never invents.
use borromean_rings.Base.{String, ◌≡◌, refl, ap, sym, Bool, Option, some, List, [], ◌∷◌, map, arith}
use borromean_rings.Json.{Value, bool, object, Fields, get, to_list-of_list}
use borromean_rings.Gate.Evidence.{present}
use borromean_rings.Gate.Evidence.Persisted.{parse_evidence-to_dict, parse_intent-to_dict}
use borromean_rings.Gate.Verdict.{
  Verdict, pair_to_list, to_dict, parse_pair, parse, parse_ok, parse_checks,
}

present-pair_to_list :
    (repr : Value → String) (cs : List (String × String))
    → present (parse_pair repr) (map pair_to_list cs) ≡ cs
unfolding parse_pair pair_to_list
present-pair_to_list repr [] = refl
present-pair_to_list repr (c ∷ cs) = ap (◌∷◌ c) (present-pair_to_list repr cs)

-- A verdict that is written and read back is the same verdict, whatever `str` prints for
-- values that are no strings.
pub parse-to_dict : (repr : Value → String) (v : Verdict) → parse repr (to_dict v) ≡ some v
unfolding parse to_dict
parse-to_dict repr v =
    simp (to_list-of_list, present-pair_to_list, parse_evidence-to_dict, parse_intent-to_dict)

parse_checks-ok :
    (repr : Value → String) (fs : Fields) (ok : Bool) (o : Option Value) {v : Verdict}
    → parse_checks repr fs ok o ≡ some v
    → v.ok ≡ ok
parse_checks-ok repr fs ok o h = ground arith

parse_ok-recorded :
    (repr : Value → String) (fs : Fields) (o : Option Value) {v : Verdict}
    → parse_ok repr fs o ≡ some v
    → o ≡ some (bool v.ok)
parse_ok-recorded repr fs (some (bool b)) h =
    ap (λ (x : Bool). some (bool x)) (sym (parse_checks-ok repr fs b (get "checks" fs) h))
parse_ok-recorded repr fs _ h = cc

-- A verdict that is read passes only if the record is an object whose "ok" is that Boolean.
pub parse-ok :
    (repr : Value → String) (raw : Value) {v : Verdict}
    → parse repr raw ≡ some v
    → (fs : Fields) × (raw ≡ object fs) × (get "ok" fs ≡ some (bool v.ok))
unfolding parse
parse-ok repr (object fs) h = (fs, refl, parse_ok-recorded repr fs (get "ok" fs) h)
parse-ok repr _ h = cc
