-- ===== src/Charter/Parse/Printed.antt =====
-- That a charter is read back from the values it is written as.
use borromean_rings.Base.{ℕ, suc, String, ◌≡◌, refl, sym, ◌∙◌, ap, List, [], ◌∷◌, map}
use borromean_rings.Json.{
  Fields, Value, member, no_members, str, array, of_list, to_list, to_list-of_list,
}
use borromean_rings.Charter.{Charter}
use borromean_rings.Charter.Parse.{read_items, parsed, parse_raw, add_item}

abbrev pub texts : List String → List Value
texts items = map str items

-- The table of the core fields of a charter.
abbrev pub table_of : Charter → Fields
table_of c = member "goal" (str c.goal) (
    member "owner" (str c.owner) (
      member "stakes" (str c.stakes) (
        member "done_when" (array (of_list (texts c.done_when))) (
          member "stop_when" (array (of_list (texts c.stop_when)))
            (member "may_not" (array (of_list (texts c.may_not))) no_members)))))

read_items-texts :
    (key : String) (index : ℕ) (items : List String)
    → read_items key index (texts items) ≡ (items, [])
unfolding read_items
read_items-texts key index [] = refl
read_items-texts key index (item ∷ items) =
    ap (add_item key index (str item)) (read_items-texts key (suc index) items)

list_of-texts :
    (key : String) (items : List String)
    → read_items key 0 (to_list (of_list (texts items))) ≡ (items, [])
list_of-texts key items =
    ap (read_items key 0) (to_list-of_list (texts items)) ∙ read_items-texts key 0 items

-- A charter without extra fields is parsed from the table of its fields, whatever they hold.
pub parse_raw-table_of : (c : Charter) → c.extras ≡ [] → parse_raw (table_of c) ≡ parsed c
unfolding parse_raw
parse_raw-table_of c h =
    rw
      (
        list_of-texts "done_when" c.done_when,
        list_of-texts "stop_when" c.stop_when,
        list_of-texts "may_not" c.may_not,
      )
      (ap (λ e. parsed (record c { extras = e })) (sym h))
