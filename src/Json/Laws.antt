-- ===== src/Json/Laws.antt =====
-- Reading back what was written to an object, and removal of keys.
use pi_tools.Common.{◌≡◌, refl, none, some, arith, if◌then◌else◌}
use pi_tools.Text.{Text, text_eq}
use pi_tools.Text.Laws.{text_eq_iff, text_eq_self}
use pi_tools.Json.{merge_fields, Json, Fields, end, field, get_field, insert_field, remove_field}

pub get_field-insert_field :
    (k j : Text) (v : Json) (fs : Fields)
    → get_field j (insert_field k v fs) ≡ (if text_eq k j then some v else get_field j fs)
unfolding get_field insert_field
get_field-insert_field k j v end = refl
get_field-insert_field k j v (field i w fs) =
    ground
      (arith, text_eq_iff k j, text_eq_iff i k, text_eq_iff i j, get_field-insert_field k j v fs)

pub get_field-insert_field_self :
    (k : Text) (v : Json) (fs : Fields) → get_field k (insert_field k v fs) ≡ some v
get_field-insert_field_self k v fs = rw (get_field-insert_field, text_eq_self k)

pub get_field-remove_field :
    (k j : Text) (fs : Fields)
    → get_field j (remove_field k fs) ≡ (if text_eq k j then none else get_field j fs)
unfolding get_field remove_field
get_field-remove_field k j end = ground arith
get_field-remove_field k j (field i w fs) =
    ground (arith, text_eq_iff k j, text_eq_iff i k, text_eq_iff i j, get_field-remove_field k j fs)

-- Removing a key forgets what was written at it.
pub remove_field-insert_field :
    (k : Text) (v : Json) (fs : Fields) → remove_field k (insert_field k v fs) ≡ remove_field k fs
unfolding remove_field insert_field
remove_field-insert_field k v end = rw (text_eq_self k)
remove_field-insert_field k v (field i w fs) =
    ground (arith, text_eq_self k, text_eq_iff i k, remove_field-insert_field k v fs)

pub remove_field_comm :
    (k j : Text) (fs : Fields)
    → remove_field k (remove_field j fs) ≡ remove_field j (remove_field k fs)
unfolding remove_field
remove_field_comm k j end = refl
remove_field_comm k j (field i w fs) = ground (arith, remove_field_comm k j fs)

-- A key that the second object lacks is read from the first.
pub get_field-merge_fields-none :
    (k : Text) (fs gs : Fields)
    → get_field k gs ≡ none
    → get_field k (merge_fields fs gs) ≡ get_field k fs
unfolding get_field merge_fields
get_field-merge_fields-none k fs end h = refl
get_field-merge_fields-none k fs (field j v gs) h =
    ground (
      arith,
      get_field-merge_fields-none k (insert_field j v fs) gs,
      get_field-insert_field j k v fs,
    )
