-- ===== src/Dot/Values.antt =====
-- The values of attributes in src/dot_parser.cpp: integers, durations, names, ids and the class of
-- a subgraph.
use attractor.Prelude.{
  ℕ, zero, suc, ◌+◌, ◌-◌, ◌*◌, ◌/◌, Bool, ◌||◌, not, Option, none, some, [], ◌∷◌, ◌++◌, Text, text,
  ◌==◌, nat_eq, leb, ltb, all, is_empty, take_while, drop_while, drop_while_end, is_alnum, to_lower,
  ℤ, pos, negsuc, if◌then◌else◌,
}
use attractor.Types.{
  FidelityMode, full, truncate, compact, summary_low, summary_medium, summary_high, ReasoningEffort,
  low, medium, high,
}
use attractor.Dot.Position.{ParseError}
use attractor.Dot.Lexer.{is_digit, is_alpha}

-- The value of a row of digits, with the value `n` of those before it.
unfoldable pub digits_value : ℕ → Text → ℕ
digits_value n [] = n
digits_value n (c ∷ s) = digits_value (n * 10 + (c - b'0')) s

abbrev pub int_max : ℕ
int_max = 2147483647

abbrev pub long_max : ℕ
long_max = 9223372036854775807

-- `std::from_chars` on the whole of a row of digits, up to the greatest value of the type.
unfoldable pub read_digits : ℕ → Text → Option ℕ
unfolding is_digit digits_value
read_digits greatest s =
    if is_empty s || not (all is_digit s)
    then none
    else if leb (digits_value 0 s) greatest
    then some (digits_value 0 s)
    else none

unfoldable pub negative : Option ℕ → Option ℤ
negative none = none
negative (some zero) = some (pos 0)
negative (some (suc n)) = some (negsuc n)

unfoldable pub parse_int_attr : Text → Option ℤ
unfolding read_digits negative
parse_int_attr [] = none
parse_int_attr (c ∷ s) =
    if nat_eq c b'-'
    then negative (read_digits (suc int_max) s)
    else elim (read_digits int_max (c ∷ s)) [ none ↦ none | some n ↦ some (pos n) ]

-- The milliseconds of a unit.
unfoldable pub unit_factor : Text → Option ℕ
unit_factor suffix =
    if suffix == text "ms"
    then some 1
    else if suffix == text "s"
    then some 1000
    else if suffix == text "m"
    then some 60000
    else if suffix == text "h"
    then some 3600000
    else if suffix == text "d"
    then some 86400000
    else none

-- The product, unless it is above the greatest `long long`.
unfoldable pub scaled : ℕ → Option ℕ → Option ℕ
scaled n none = none
scaled n (some factor) = if ltb (long_max / factor) n then none else some (n * factor)

unfoldable pub duration_of : Option ℕ → Text → Option ℕ
unfolding scaled unit_factor
duration_of none suffix = none
duration_of (some n) suffix = if nat_eq n 0 then none else scaled n (unit_factor suffix)

-- In milliseconds. Without a suffix, or without digits before it, there is no duration.
unfoldable pub parse_duration : Text → Option ℕ
unfolding duration_of read_digits take_while drop_while is_digit
parse_duration s =
    if is_empty (drop_while is_digit s)
    then none
    else duration_of (read_digits long_max (take_while is_digit s)) (drop_while is_digit s)

unfoldable pub parse_reasoning_effort : Text → Option ReasoningEffort
parse_reasoning_effort s =
    if s == text "low"
    then some low
    else if s == text "medium"
    then some medium
    else if s == text "high"
    then some high
    else none

unfoldable pub parse_fidelity_mode : Text → Option FidelityMode
parse_fidelity_mode s =
    if s == text "full"
    then some full
    else if s == text "truncate"
    then some truncate
    else if s == text "compact"
    then some compact
    else if s == text "summary:low"
    then some summary_low
    else if s == text "summary:medium"
    then some summary_medium
    else if s == text "summary:high"
    then some summary_high
    else none

abbrev pub error_at : Text → ℕ → ℕ → ParseError
error_at message line column = record { message = message; line = line; column = column }

unfoldable pub is_id_byte : ℕ → Bool
unfolding is_alnum
is_id_byte c = is_alnum c || nat_eq c b'_'

unfoldable pub validate_node_id : Text → ℕ → ℕ → Option ParseError
unfolding is_alpha is_id_byte
validate_node_id [] line column = some (error_at (text "empty node ID") line column)
validate_node_id (c ∷ id) line column =
    if not (is_alpha c || nat_eq c b'_')
    then some (error_at (text "invalid node ID: " ++ (c ∷ id)) line column)
    else if not (all is_id_byte id)
    then some (error_at (text "invalid node ID: " ++ (c ∷ id)) line column)
    else none

-- What a byte of a label becomes in a class.
unfoldable pub class_bytes : Text → Text
unfolding is_id_byte to_lower
class_bytes [] = []
class_bytes (c ∷ s) =
    let rest = class_bytes s in
    if is_id_byte c then to_lower c ∷ rest else if nat_eq c 32 then b'-' ∷ rest else rest

unfoldable pub derive_css_class : Text → Text
unfolding class_bytes drop_while drop_while_end
derive_css_class label =
    drop_while_end (λ c. nat_eq c b'-') (drop_while (λ c. nat_eq c b'-') (class_bytes label))
