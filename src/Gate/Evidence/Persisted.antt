-- ===== src/Gate/Evidence/Persisted.antt =====
-- What survives a write and a read of evidence and intent.
use borromean_rings.Base.{ℕ, String, ◌≡◌, refl, ap, Option, some, List, [], ◌∷◌, map, arith}
use borromean_rings.Json.{pos, Value, int, array, Fields, get, of_list, to_list-of_list}
use borromean_rings.Gate.Evidence.{
  Evidence, Intent, evidence_to_dict, evidence_from_receipt, parse_one, parse_evidence, present,
  intent_to_dict, parse_intent, int_or, exit_not_recorded,
}

parse_one-evidence_to_dict :
    (repr : Value → String) (e : Evidence) → parse_one repr (evidence_to_dict e) ≡ some e
unfolding parse_one evidence_to_dict
parse_one-evidence_to_dict repr e = refl

present-evidence_to_dict :
    (repr : Value → String) (es : List Evidence)
    → present (parse_one repr) (map evidence_to_dict es) ≡ es
present-evidence_to_dict repr [] = refl
present-evidence_to_dict repr (e ∷ es) =
    rw (parse_one-evidence_to_dict repr e, present) (ap (◌∷◌ e) (present-evidence_to_dict repr es))

pub parse_evidence-to_dict :
    (repr : Value → String) (es : List Evidence)
    → parse_evidence repr (some (array (of_list (map evidence_to_dict es)))) ≡ es
unfolding parse_evidence
parse_evidence-to_dict repr es = rw to_list-of_list (present-evidence_to_dict repr es)

pub parse_intent-to_dict :
    (repr : Value → String) (i : Intent) → parse_intent repr (some (intent_to_dict i)) ≡ i
unfolding parse_intent intent_to_dict
parse_intent-to_dict repr i = refl

int_or-zero : (v : Option Value) → int_or v exit_not_recorded ≡ pos 0 → v ≡ some (int (pos 0))
unfolding int_or
int_or-zero v h = ground arith

-- Evidence lifted from a receipt shows exit code 0 only if the receipt records the integer 0.
pub exit_zero_recorded :
    (repr : Value → String) (size : String → Option ℕ) (receipt : Fields) (lane : String)
    → (evidence_from_receipt repr size receipt lane).exit_code ≡ pos 0
    → get "exit_code" receipt ≡ some (int (pos 0))
unfolding evidence_from_receipt
exit_zero_recorded repr size receipt lane h = int_or-zero (get "exit_code" receipt) h
