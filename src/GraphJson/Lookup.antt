-- ===== src/GraphJson/Lookup.antt =====
-- What is read of an object that has been written.
use attractor.Prelude.{
  ◌≡◌, refl, ◌∙◌, ap, Bool, true, false, Option, none, some, List, [], ◌∷◌, Text, ◌==◌, All, Result,
  ok, Bool-cases, inl, inr, arith,
}
use attractor.Json.{Json, Fields, JsonError, get_field, get_field-set_field}
use attractor.GraphJson.Access.{Write, write, write_all, opt_to_json, read_value}

-- The value that a write gives to a key, which is its own (`true`) or another one.
unfoldable pub over : Bool → Option Json → Option Json → Option Json
over true (some v) old = some v
over true none old = old
over false v old = old

unfoldable pub last_write : Text → List Write → Option Json → Option Json
unfolding over
last_write k [] old = old
last_write k ((key, v) ∷ ws) old = last_write k ws (over (key == k) v old)

get_field-write :
    (k key : Text) (v : Option Json) (fs : Fields)
    → get_field k (write key v fs) ≡ over (key == k) v (get_field k fs)
unfolding write over
get_field-write k key none fs = elim (Bool-cases (key == k)) [
  | inl e ↦ rw (e, over) refl
  | inr e ↦ rw (e, over) refl
]
get_field-write k key (some v) fs = elim (Bool-cases (key == k)) [
  | inl e ↦ rw (e, over) (ground (arith, get_field-set_field key k v fs))
  | inr e ↦ rw (e, over) (ground (arith, get_field-set_field key k v fs))
]

pub get_field-write_all :
    (k : Text) (ws : List Write) (fs : Fields)
    → get_field k (write_all ws fs) ≡ last_write k ws (get_field k fs)
unfolding write_all last_write
get_field-write_all k [] fs = refl
get_field-write_all k ((key, v) ∷ ws) fs =
    get_field-write_all k ws (write key v fs) ∙ ap (last_write k ws) (get_field-write k key v fs)

-- Writes of other keys leave a key as it was.
pub last_write-other :
    (k : Text) (ws : List Write) (old : Option Json)
    → All (λ w. (w.0 == k) ≡ false) ws
    → last_write k ws old ≡ old
unfolding last_write over
last_write-other k [] old h = refl
last_write-other k ((key, v) ∷ ws) old h = rw h.0 (last_write-other k ws old h.1)

-- A written optional value is read back, if it reads back by itself and is not written as null.
pub read_value-opt :
    {A : Type 0} (f : A → Json) (g : Json → Result JsonError A) (o : Option A)
    → ((a : A) → o ≡ some a → read_value g none (some (f a)) ≡ ok (some a))
    → read_value g none (over true (opt_to_json f o) none) ≡ ok o
unfolding over opt_to_json read_value
read_value-opt f g none h = refl
read_value-opt f g (some a) h = h a refl
