-- ===== src/Json.antt =====
-- Values of nlohmann::json, and the operations that the program uses on them. An object is a
-- std::map, so its keys stand in order. Printing and parsing of JSON text is third-party code and
-- stays a parameter where it is used.
use attractor.Prelude.{
  Bool, true, false, Option, none, some, Text, text, ℤ, ◌==◌, text_lt, if◌then◌else◌, ◌≡◌, refl,
  arith, ==_iff,
}

-- A binary64 value: `finite m e` is m * 2^e.
pub data Double : Type 0 where
  finite : ℤ → ℤ → Double
  infinite : Bool → Double
  nan : Double

mutual
  pub data Json : Type 0 where
    null : Json
    boolean : Bool → Json
    integer : ℤ → Json
    float : Double → Json
    str : Text → Json
    array : Items → Json
    object : Fields → Json

  pub data Items : Type 0 where
    nil : Items
    cons : Json → Items → Items

  pub data Fields : Type 0 where
    end : Fields
    field : Text → Json → Fields → Fields

-- What reading a JSON value can throw: the errors that the program raises, with their messages,
-- and those that the library raises.
pub data JsonError : Type 0 where
  type_error : Text → JsonError
  other_error : Text → JsonError
  library_error : JsonError

-- `j.type_name()`.
pub type_name : Json → Text
type_name null = text "null"
type_name (boolean b) = text "boolean"
type_name (integer i) = text "number"
type_name (float d) = text "number"
type_name (str s) = text "string"
type_name (array xs) = text "array"
type_name (object fs) = text "object"

-- `find` and `operator[]` on the map of an object.
unfoldable pub get_field : Text → Fields → Option Json
get_field k end = none
get_field k (field j v fs) = if j == k then some v else get_field k fs

unfoldable pub set_field : Text → Json → Fields → Fields
set_field k v end = field k v end
set_field k v (field j w fs) =
    let rest = set_field k v fs in
    if j == k
    then field k v fs
    else if text_lt k j
    then field k v (field j w fs)
    else field j w rest

pub get_field-set_field :
    (k j : Text) (v : Json) (fs : Fields)
    → get_field j (set_field k v fs) ≡ (if k == j then some v else get_field j fs)
unfolding get_field set_field
get_field-set_field k j v end = refl
get_field-set_field k j v (field i w fs) =
    ground (arith, ==_iff k j, ==_iff i k, ==_iff i j, get_field-set_field k j v fs)

-- `j.contains(key)` with the value found; `none` for what is no object.
unfoldable pub get_member : Text → Json → Option Json
get_member k (object fs) = get_field k fs
get_member k j = none

unfoldable pub is_object : Json → Bool
is_object (object fs) = true
is_object j = false
