-- ===== src/Context/Finite.antt =====
-- `has_non_finite_float` of src/context.cpp.
use attractor.Prelude.{Bool, true, false, if◌then◌else◌, Text, ◌≡◌, arith}
use attractor.Json.{
  Double, finite, Json, null, boolean, integer, float, str, array, object, Items, nil, cons, Fields,
  end, field, set_field,
}

abbrev is_non_finite : Double → Bool
is_non_finite (finite m e) = false
is_non_finite d = true

unfoldable mutual
  pub has_non_finite_float : Json → Bool
  has_non_finite_float (float d) = is_non_finite d
  has_non_finite_float (array xs) = non_finite_items xs
  has_non_finite_float (object fs) = non_finite_fields fs
  has_non_finite_float null = false
  has_non_finite_float (boolean b) = false
  has_non_finite_float (integer i) = false
  has_non_finite_float (str s) = false

  pub non_finite_items : Items → Bool
  non_finite_items nil = false
  non_finite_items (cons x xs) = if has_non_finite_float x then true else non_finite_items xs

  pub non_finite_fields : Fields → Bool
  non_finite_fields end = false
  non_finite_fields (field k v fs) = if has_non_finite_float v then true else non_finite_fields fs

pub non_finite_fields-set_field :
    (k : Text) (v : Json) (fs : Fields)
    → has_non_finite_float v ≡ false
    → non_finite_fields fs ≡ false
    → non_finite_fields (set_field k v fs) ≡ false
unfolding has_non_finite_float set_field
non_finite_fields-set_field k v end h p = ground arith
non_finite_fields-set_field k v (field j w fs) h p =
    ground (arith, non_finite_fields-set_field k v fs)
