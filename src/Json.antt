-- ===== src/Json.antt =====
-- JSON values: `serde_json::Value` in the workers, `jsonb` in the database. The object type of both
-- is a map with its keys in order: `insert_field` puts a key in its place or replaces its value.
pub mod Laws
use pi_tools.Common.{ℕ, Bool, List, [], ◌∷◌, Option, none, some, if◌then◌else◌}
use pi_tools.Text.{Text, text_eq, text_lt}

-- `number` is a natural number; any other numeral is kept in its printed form.
mutual
  pub data Json : Type 0 where
    null : Json
    bool : Bool → Json
    number : ℕ → Json
    numeral : Text → Json
    str : Text → Json
    arr : Items → Json
    obj : Fields → Json

  pub data Items : Type 0 where
    nil : Items
    cons : Json → Items → Items

  pub data Fields : Type 0 where
    end : Fields
    field : Text → Json → Fields → Fields

unfoldable pub get_field : Text → Fields → Option Json
get_field k end = none
get_field k (field j v fs) = if text_eq j k then some v else get_field k fs

unfoldable pub insert_field : Text → Json → Fields → Fields
insert_field k v end = field k v end
insert_field k v (field j w fs) =
    if text_eq j k
    then field k v fs
    else if text_lt k j
    then field k v (field j w fs)
    else field j w (insert_field k v fs)

unfoldable pub remove_field : Text → Fields → Fields
remove_field k end = end
remove_field k (field j w fs) =
    if text_eq j k then remove_field k fs else field j w (remove_field k fs)

-- `Value::get` at a string key, and `->`.
abbrev pub get : Text → Json → Option Json
get k (obj fs) = get_field k fs
get k null = none
get k (bool b) = none
get k (number n) = none
get k (numeral t) = none
get k (str t) = none
get k (arr xs) = none

abbrev pub as_str : Json → Option Text
as_str (str t) = some t
as_str null = none
as_str (bool b) = none
as_str (number n) = none
as_str (numeral t) = none
as_str (arr xs) = none
as_str (obj fs) = none

abbrev pub as_bool : Json → Option Bool
as_bool (bool b) = some b
as_bool null = none
as_bool (number n) = none
as_bool (numeral t) = none
as_bool (str t) = none
as_bool (arr xs) = none
as_bool (obj fs) = none

-- `Value::as_array`.
abbrev pub as_array : Json → Option Items
as_array (arr xs) = some xs
as_array null = none
as_array (bool b) = none
as_array (number n) = none
as_array (numeral t) = none
as_array (str t) = none
as_array (obj fs) = none

abbrev pub items : Items → List Json
items nil = []
items (cons x xs) = x ∷ items xs

-- The fields of the second object over those of the first.
unfoldable pub merge_fields : Fields → Fields → Fields
merge_fields fs end = fs
merge_fields fs (field k v gs) = merge_fields (insert_field k v fs) gs

unfoldable pub append_items : Items → Items → Items
append_items nil ys = ys
append_items (cons x xs) ys = cons x (append_items xs ys)

-- `||` of `jsonb` makes an array of what is none.
abbrev pub to_items : Json → Items
to_items (arr xs) = xs
to_items null = cons null nil
to_items (bool b) = cons (bool b) nil
to_items (number n) = cons (number n) nil
to_items (numeral t) = cons (numeral t) nil
to_items (str t) = cons (str t) nil
to_items (obj fs) = cons (obj fs) nil

unfoldable pub concat : Json → Json → Json
concat (obj fs) (obj gs) = obj (merge_fields fs gs)
concat v w = arr (append_items (to_items v) (to_items w))

-- `jsonb_set(v, '{k}', w, TRUE)`, which fails on what is no object.
unfoldable pub set_key : Text → Json → Json → Option Json
set_key k w (obj fs) = some (obj (insert_field k w fs))
set_key k w _ = none
