-- ===== src/Json.antt =====
-- Decoded JSON: what `json.loads` hands to verdict.py and evidence.py, and `json.dumps` takes.
use borromean_rings.Base.{
  ℕ, String, ◌≡◌, refl, ap, Bool, Option, none, some, List, [], ◌∷◌, ◌==◌, if◌then◌else◌, false,
  true, not, ◌||◌, nat_eq,
}

-- A Python `int`; `negsuc n` is -(n + 1).
pub data ℤ : Type 0 where
  pos : ℕ → ℤ
  negsuc : ℕ → ℤ

-- A float is kept by its text: the program never computes with one.
mutual
  pub data Fields : Type 0 where
    member : String → Value → Fields → Fields
    no_members : Fields

  pub data Items : Type 0 where
    item : Value → Items → Items
    no_items : Items

  pub data Value : Type 0 where
    str real : String → Value
    object : Fields → Value
    array : Items → Value
    int : ℤ → Value
    bool : Bool → Value
    null : Value

-- `d.get(key)`; a decoded object has each key once.
abbrev pub get : String → Fields → Option Value
get k no_members = none
get k (member j v fs) = if j == k then some v else get k fs

abbrev pub to_list : Items → List Value
to_list no_items = []
to_list (item v vs) = v ∷ to_list vs

abbrev pub of_list : List Value → Items
of_list [] = no_items
of_list (v ∷ vs) = item v (of_list vs)

pub to_list-of_list : (vs : List Value) → to_list (of_list vs) ≡ vs
to_list-of_list [] = refl
to_list-of_list (v ∷ vs) = ap (◌∷◌ v) (to_list-of_list vs)

-- `str(v)`. What Python prints for a value that is no string is the parameter `repr`.
abbrev pub text : (Value → String) → Value → String
text repr (str s) = s
text repr v = repr v

-- `str(d.get(key, default))`
abbrev pub text_or : (Value → String) → String → Option Value → String
text_or repr default none = default
text_or repr default (some v) = text repr v

-- Whether Python takes a value for true.
abbrev pub truthy : Option Value → Bool
truthy none = false
truthy (some null) = false
truthy (some (bool b)) = b
truthy (some (int (pos n))) = not (nat_eq n 0)
truthy (some (int (negsuc n))) = true
truthy (some (real x)) = not (x == "0.0" || x == "-0.0")
truthy (some (str s)) = not (s == "")
truthy (some (array no_items)) = false
truthy (some (array (item v vs))) = true
truthy (some (object no_members)) = false
truthy (some (object (member k v fs))) = true
