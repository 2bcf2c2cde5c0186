-- ===== src/Validator/Syntax.antt =====
-- `is_valid_condition_key`, `parse_condition_syntax` and `parse_stylesheet_syntax` of
-- src/validator.cpp. Its `trim` and its search for an operator are the code of src/engine.cpp, so
-- the definitions of Condition stand for both. The pointer of the stylesheet parser is the rest of
-- the text; its two loops take fuel, and Stylesheet shows that the fuel given is enough.
use attractor.Prelude.{
  ℕ, zero, suc, Bool, true, false, ◌&&◌, ◌||◌, not, Option, none, some, [], ◌∷◌, Text, text, ◌==◌,
  nat_eq, leb, ltb, length, all, is_empty, starts_with, drop_while, drop_while_end, is_alnum,
  if◌then◌else◌, take_while, skip_semicolon, expect,
}
use attractor.Condition.{trim, clauses_of, Comparison, parse_comparison}

unfoldable pub is_valid_condition_key : Text → Bool
is_valid_condition_key key =
    if key == text "outcome" || key == text "preferred_label"
    then true
    else starts_with key (text "context.") && ltb 8 (length key)

unfoldable pub is_valid_comparison : Option Comparison → Bool
unfolding is_valid_condition_key
is_valid_comparison none = false
is_valid_comparison (some c) = is_valid_condition_key c.key && not (is_empty c.val)

-- A round of the loop over the clauses, which are trimmed.
unfoldable pub is_valid_clause : Text → Bool
unfolding is_valid_comparison
is_valid_clause [] = false
is_valid_clause (b ∷ s) = is_valid_comparison (parse_comparison (b ∷ s))

unfoldable pub parse_condition_syntax : Text → Bool
unfolding is_valid_clause clauses_of trim
parse_condition_syntax condition =
    if is_empty condition then true else all (λ s. is_valid_clause (trim s)) (clauses_of condition)

-- `std::isspace` in the C locale.
unfoldable pub is_space : ℕ → Bool
is_space c = nat_eq c 32 || (leb 9 c && leb c 13)

unfoldable pub is_ident : ℕ → Bool
is_ident c =
    is_alnum c
    || (nat_eq c b'_' || (nat_eq c b'-' || (nat_eq c b'.' || (nat_eq c b'#' || nat_eq c b'*'))))

unfoldable pub is_key_byte : ℕ → Bool
unfolding is_space
is_key_byte c = not (nat_eq c b':') && (not (nat_eq c b'}') && not (is_space c))

unfoldable pub is_value_byte : ℕ → Bool
is_value_byte c = not (nat_eq c b';') && not (nat_eq c b'}')

unfoldable pub skip_ws : Text → Text
unfolding is_space drop_while
skip_ws s = drop_while is_space s

-- What is left behind a value; `none` is `return false`.
unfoldable pub declared_value : Text → Option Text
unfolding take_while is_value_byte is_space drop_while drop_while_end skip_semicolon
declared_value s =
    if is_empty (drop_while_end is_space (take_while is_value_byte s))
    then none
    else some (skip_semicolon (drop_while is_value_byte s))

-- A declaration, from its key on.
unfoldable pub declaration : Text → Option Text
unfolding take_while is_key_byte drop_while skip_ws expect declared_value
declaration s =
    if is_empty (take_while is_key_byte s)
    then none
    else elim (expect b':' (skip_ws (drop_while is_key_byte s))) [
      | none ↦ none
      | some rest ↦ declared_value (skip_ws rest)
    ]

pub data Parsed : Type 0 where
  rejected : Parsed
  parsed : Text → Parsed

-- The inner loop, on the text behind white space, with `has_decl`.
unfoldable pub block : ℕ → Text → Bool → Option Parsed
unfolding declaration skip_ws
block fuel [] has_decl = some rejected
block zero (c ∷ s) has_decl = none
block (suc fuel) (c ∷ s) has_decl = elim (nat_eq c b'}') [
  | true ↦ some (if has_decl then parsed s else rejected)
  | false ↦ elim (declaration (c ∷ s)) [
    | none ↦ some rejected
    | some rest ↦ block fuel (skip_ws rest) true
  ]
]

-- A rule: a selector and a block.
unfoldable pub style_rule : ℕ → Text → Option Parsed
unfolding take_while is_ident drop_while skip_ws expect block
style_rule fuel s =
    if is_empty (take_while is_ident s)
    then some rejected
    else elim (expect b'{' (skip_ws (drop_while is_ident s))) [
      | none ↦ some rejected
      | some rest ↦ block fuel (skip_ws rest) false
    ]

-- The outer loop, on the text behind white space.
unfoldable pub style_rules : ℕ → Text → Option Bool
unfolding style_rule skip_ws
style_rules fuel [] = some true
style_rules zero (c ∷ s) = none
style_rules (suc fuel) (c ∷ s) = elim (style_rule fuel (c ∷ s)) [
  | none ↦ none
  | some rejected ↦ some false
  | some (parsed rest) ↦ style_rules fuel (skip_ws rest)
]

unfoldable pub parse_stylesheet_syntax : Text → Option Bool
unfolding style_rules skip_ws
parse_stylesheet_syntax stylesheet = style_rules (length stylesheet) (skip_ws stylesheet)
