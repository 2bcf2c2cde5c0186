-- ===== src/GraphJson/Access.antt =====
-- How src/graph.cpp writes and reads the members of a JSON object, and the constrained numbers of
-- src/types.cpp. `get<int>` and `get<int64_t>` of nlohmann::json are parameters.
use attractor.Prelude.{
  ℕ, ◌≤◌, ◌≡◌, Bool, true, Option, none, some, List, [], ◌∷◌, Text, text, ℤ, pos, negsuc, Result,
  ok, err, ◌>>=◌, if◌then◌else◌, ◌++◌,
}
use attractor.Json.{
  Json, null, boolean, integer, float, str, array, object, Fields, JsonError, other_error,
  library_error, set_field, get_member,
}
use attractor.Types.{port_constraint, positive_duration_constraint, max_parallel_constraint}

-- The readers of integers that nlohmann::json provides.
pub record Reader : Type 0 where
  pub get_int : Json → Result JsonError ℤ
  pub get_int64 : Json → Result JsonError ℤ

abbrev pub int_max : ℕ
int_max = 2147483647

abbrev pub int64_max : ℕ
int64_max = 9223372036854775807

-- What the library documents of them: a number of the type is read as itself.
pub record IsReader (rd : Reader) : Type 0 where
  pub reads_int : (n : ℕ) → n ≤ int_max → rd.get_int (integer (pos n)) ≡ ok (pos n)
  pub reads_int64 : (n : ℕ) → n ≤ int64_max → rd.get_int64 (integer (pos n)) ≡ ok (pos n)

-- `j.get<bool>()`.
unfoldable pub get_bool : Json → Result JsonError Bool
get_bool (boolean b) = ok b
get_bool j = err library_error

-- The members that are written, in order; `none` is an optional value that is not there.
abbrev pub Write : Type 0
Write = Text × Option Json

unfoldable pub write : Text → Option Json → Fields → Fields
write key none fs = fs
write key (some v) fs = set_field key v fs

unfoldable pub write_all : List Write → Fields → Fields
unfolding write
write_all [] fs = fs
write_all ((key, v) ∷ ws) fs = write_all ws (write key v fs)

unfoldable pub opt_to_json : {A : Type 0} → (A → Json) → Option A → Option Json
opt_to_json f none = none
opt_to_json f (some a) = some (f a)

module _ {A : Type 0} where
  -- `j.contains(key)`, and the value if so.
  unfoldable pub read_if : Text → (Json → Result JsonError A) → A → Json → Result JsonError A
  unfolding get_member
  read_if key read old j = elim (get_member key j) [ none ↦ ok old | some v ↦ read v ]

  -- `j.at(key)`, which throws for a key that is missing.
  unfoldable pub read_at : Text → (Json → Result JsonError A) → Json → Result JsonError A
  unfolding get_member
  read_at key read j = elim (get_member key j) [ none ↦ err library_error | some v ↦ read v ]

  -- A value that is neither missing nor null.
  unfoldable pub read_value :
      (Json → Result JsonError A) → Option A → Option Json → Result JsonError (Option A)
  read_value read old none = ok old
  read_value read old (some null) = ok old
  read_value read old (some (boolean b)) = read (boolean b) >>= λ a. ok (some a)
  read_value read old (some (integer i)) = read (integer i) >>= λ a. ok (some a)
  read_value read old (some (float d)) = read (float d) >>= λ a. ok (some a)
  read_value read old (some (str s)) = read (str s) >>= λ a. ok (some a)
  read_value read old (some (array xs)) = read (array xs) >>= λ a. ok (some a)
  read_value read old (some (object fs)) = read (object fs) >>= λ a. ok (some a)

  unfoldable pub read_present :
      Text → (Json → Result JsonError A) → Option A → Json → Result JsonError (Option A)
  unfolding get_member read_value
  read_present key read old j = read_value read old (get_member key j)

-- `to_json` of a constrained number.
unfoldable pub number_to_json : ℕ → Json
number_to_json n = integer (pos n)

-- The number, if it is not negative and the constraint accepts it, or the error.
unfoldable pub constrained : (ℕ → Bool) → JsonError → ℤ → Result JsonError ℕ
constrained test e (pos n) = if test n then ok n else err e
constrained test e (negsuc n) = err e

abbrev pub any_number : ℕ → Bool
any_number n = true

module _ (show : ℤ → Text) (rd : Reader) where
  -- `from_json` of MaxRetries, Weight, Port, MaxParallel and TimeoutDuration; `show` is
  -- std::to_string.
  unfoldable pub max_retries_from_json : Json → Result JsonError ℕ
  unfolding constrained
  max_retries_from_json j = rd.get_int j >>= λ v.
      constrained any_number (other_error (text "MaxRetries value must be >= 0, got: " ++ show v)) v

  unfoldable pub weight_from_json : Json → Result JsonError ℕ
  unfolding constrained
  weight_from_json j = rd.get_int j >>= λ v.
      constrained any_number (other_error (text "Weight value must be >= 0, got: " ++ show v)) v

  unfoldable pub port_from_json : Json → Result JsonError ℕ
  unfolding constrained port_constraint
  port_from_json j = rd.get_int j >>= λ v.
      constrained port_constraint (other_error (text "Port value must be 1-65535, got: " ++ show v))
        v

  unfoldable pub max_parallel_from_json : Json → Result JsonError ℕ
  unfolding constrained max_parallel_constraint
  max_parallel_from_json j = rd.get_int j >>= λ v.
      constrained max_parallel_constraint
        (other_error (text "MaxParallel value must be >= 1, got: " ++ show v)) v

  unfoldable pub timeout_from_json : Json → Result JsonError ℕ
  unfolding constrained positive_duration_constraint
  timeout_from_json j = rd.get_int64 j >>= λ v.
      constrained positive_duration_constraint
        (other_error (text "TimeoutDuration must be > 0 ms, got: " ++ show v)) v
