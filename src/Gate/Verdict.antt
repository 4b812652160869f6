-- ===== src/Gate/Verdict.antt =====
-- The verdict record: `Verdict`, `to_dict` and `_parse` (verdict.py).
pub mod Persisted
use borromean_rings.Base.{String, Bool, Option, none, some, List, [], ◌∷◌, map, if◌then◌else◌}
use borromean_rings.Json.{
  Value, null, bool, int, real, str, array, object, Items, no_items, item, Fields, no_members,
  member, get, to_list, of_list, text, text_or,
}
use borromean_rings.Gate.Evidence.{
  Evidence, Intent, evidence_to_dict, intent_to_dict, parse_evidence, parse_intent, present,
}

pub record Verdict : Type 0 where
  pub ok : Bool
  pub checks : List (String × String)
  pub run_id : String
  pub digest : String
  pub harness_version : String
  pub risk : String
  pub intent : Intent
  pub evidence : List Evidence
  pub lane : String

-- `list(pair)`
unfoldable pub pair_to_list : String × String → Value
pair_to_list c = array (item (str c.0) (item (str c.1) no_items))

unfoldable pub to_dict : Verdict → Value
to_dict v = object (
    member "ok" (bool v.ok) (
      member "run_id" (str v.run_id) (
        member "digest" (str v.digest) (
          member "harness_version" (str v.harness_version) (
            member "risk" (str v.risk) (
              member "intent" (intent_to_dict v.intent) (
                member "lane" (str v.lane) (
                  member "checks" (array (of_list (map pair_to_list v.checks))) (
                    member "evidence" (array (of_list (map evidence_to_dict v.evidence)))
                      no_members)))))))))

-- A recorded pair; anything that is no list of length 2 is passed over.
unfoldable pub parse_pair : (Value → String) → Value → Option (String × String)
parse_pair repr (array (item a (item b no_items))) = some (text repr a, text repr b)
parse_pair repr raw = none

-- `_parse` once `ok` is a Boolean and `checks` a list.
abbrev build : (Value → String) → Fields → Bool → List Value → Verdict
build repr data_ ok raw_checks = record {
  ok = ok;
  checks = present (parse_pair repr) raw_checks;
  run_id = text_or repr "" (get "run_id" data_);
  digest = text_or repr "" (get "digest" data_);
  harness_version = text_or repr "" (get "harness_version" data_);
  risk = text_or repr "" (get "risk" data_);
  intent = parse_intent repr (get "intent" data_);
  evidence = parse_evidence repr (get "evidence" data_);
  lane = text_or repr "" (get "lane" data_);
}

abbrev parse_checks : (Value → String) → Fields → Bool → Option Value → Option Verdict
parse_checks repr data_ ok none = some (build repr data_ ok [])
parse_checks repr data_ ok (some (array items)) = some (build repr data_ ok (to_list items))
parse_checks repr data_ ok v = none

abbrev parse_ok : (Value → String) → Fields → Option Value → Option Verdict
parse_ok repr data_ (some (bool ok)) = parse_checks repr data_ ok (get "checks" data_)
parse_ok repr data_ v = none

unfoldable pub parse : (Value → String) → Value → Option Verdict
parse repr (object data_) = parse_ok repr data_ (get "ok" data_)
parse repr v = none
