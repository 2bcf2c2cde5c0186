-- ===== src/Transform/Style.antt =====
-- `parse_stylesheet` of src/transform.cpp. The view that the parser shortens is the rest of the
-- text. Its two loops take fuel; Parse shows that the fuel given is enough.
use attractor.Prelude.{
  ℕ, zero, suc, Bool, ◌||◌, not, Option, none, some, List, [], ◌∷◌, Text, text, ◌==◌, nat_eq,
  length, is_empty, drop_while, drop_while_end, is_alnum, if◌then◌else◌, take_while, skip_semicolon,
  expect,
}

pub data SelectorType : Type 0 where
  universal shape css_class id : SelectorType

pub record StyleRule : Type 0 where
  pub selector : SelectorType
  pub selector_value : Text
  pub specificity : ℕ
  pub llm_model : Text
  pub llm_provider : Text
  pub reasoning_effort : Text

-- k_whitespace
unfoldable pub is_whitespace : ℕ → Bool
is_whitespace c = nat_eq c 32 || (nat_eq c 9 || (nat_eq c 10 || nat_eq c 13))

-- k_selector_chars
unfoldable pub is_selector_char : ℕ → Bool
is_selector_char c =
    is_alnum c
    || (nat_eq c b'_' || (nat_eq c b'-' || (nat_eq c b'.' || (nat_eq c b'*' || nat_eq c b'#'))))

-- The bytes of a key, which stops at one of ": \t\n\r}".
unfoldable pub is_key_char : ℕ → Bool
unfolding is_whitespace
is_key_char c = not (nat_eq c b':' || (nat_eq c b'}' || is_whitespace c))

-- The bytes of a value, which stops at one of ";}\n".
unfoldable pub is_val_char : ℕ → Bool
is_val_char c = not (nat_eq c b';' || (nat_eq c b'}' || nat_eq c 10))

unfoldable pub skip_ws : Text → Text
unfolding is_whitespace drop_while
skip_ws s = drop_while is_whitespace s

unfoldable pub rtrim : Text → Text
unfolding is_whitespace drop_while_end
rtrim s = drop_while_end is_whitespace s

abbrev rule_of : SelectorType → ℕ → Text → StyleRule
rule_of t n v = record {
  selector = t;
  selector_value = v;
  specificity = n;
  llm_model = [];
  llm_provider = [];
  reasoning_effort = [];
}

-- The rule of a selector that is neither empty nor "*".
unfoldable pub named_selector : Text → StyleRule
named_selector [] = rule_of shape 1 []
named_selector (c ∷ sel) =
    if nat_eq c b'#'
    then rule_of id 3 sel
    else if nat_eq c b'.'
    then rule_of css_class 2 sel
    else rule_of shape 1 (c ∷ sel)

unfoldable pub parse_selector : Text → StyleRule
unfolding named_selector
parse_selector sel = if sel == text "*" then rule_of universal 0 [] else named_selector sel

-- An assignment to a field of the rule; other keys are passed over.
unfoldable pub set_property : Text → Text → StyleRule → StyleRule
set_property key val r =
    if key == text "llm_model"
    then record r { llm_model = val }
    else if key == text "llm_provider"
    then record r { llm_provider = val }
    else if key == text "reasoning_effort"
    then record r { reasoning_effort = val }
    else r

-- What a round of the inner loop does: it leaves the loop, or goes on.
pub data Round : Type 0 where
  stop : Text → Round
  go_on : StyleRule → Text → Round

unfoldable pub assign : Text → StyleRule → Text → Round
unfolding take_while drop_while is_val_char rtrim set_property skip_semicolon
assign key rule s =
    go_on (set_property key (rtrim (take_while is_val_char s)) rule)
      (skip_semicolon (drop_while is_val_char s))

-- A declaration, from its key on. At the end of the text and at '}' the key is empty.
unfoldable pub declaration : StyleRule → Text → Round
unfolding take_while drop_while is_key_char skip_ws expect assign
declaration rule s =
    if is_empty (take_while is_key_char s)
    then stop s
    else elim (expect b':' (skip_ws (drop_while is_key_char s))) [
      | none ↦ stop (skip_ws (drop_while is_key_char s))
      | some rest ↦ assign (take_while is_key_char s) rule (skip_ws rest)
    ]

-- The inner loop, with the rule and the text that it leaves.
unfoldable pub declarations : ℕ → StyleRule → Text → Option (StyleRule × Text)
unfolding declaration skip_ws
declarations zero rule s = none
declarations (suc fuel) rule s = elim (declaration rule (skip_ws s)) [
  | stop rest ↦ some (rule, rest)
  | go_on next rest ↦ declarations fuel next rest
]

unfoldable pub skip_brace : Text → Text
skip_brace [] = []
skip_brace (c ∷ s) = if nat_eq c b'}' then s else c ∷ s

-- A round of the outer loop behind its white space: `some none` leaves the loop.
unfoldable pub style_rule : ℕ → Text → Option (Option (StyleRule × Text))
unfolding take_while drop_while is_selector_char skip_ws expect parse_selector declarations
    skip_brace
style_rule fuel s =
    if is_empty (take_while is_selector_char s)
    then some none
    else elim (expect b'{' (skip_ws (drop_while is_selector_char s))) [
      | none ↦ some none
      | some rest ↦ elim (declarations fuel (parse_selector (take_while is_selector_char s)) rest) [
        | none ↦ none
        | some (rule, left) ↦ some (some (rule, skip_brace left))
      ]
    ]

-- The outer loop. At the end of the text no selector is found.
unfoldable pub style_rules : ℕ → Text → Option (List StyleRule)
unfolding style_rule skip_ws
style_rules zero s = none
style_rules (suc fuel) s = elim (style_rule (suc fuel) (skip_ws s)) [
  | none ↦ none
  | some none ↦ some []
  | some (some (rule, rest)) ↦ elim (style_rules fuel rest) [
    | none ↦ none
    | some rules ↦ some (rule ∷ rules)
  ]
]

unfoldable pub parse_stylesheet : Text → Option (List StyleRule)
unfolding style_rules
parse_stylesheet ssid = style_rules (suc (length ssid)) ssid
