-- ===== src/Dot/Lexer.antt =====
-- The lexer of src/dot_parser.cpp. Its state is the rest of the source with its position. Fuel
-- counts the bytes that `next_token` skips and the tokens of `tokenize`; Tokens shows that the fuel
-- given is enough.
use attractor.Prelude.{
  ℕ, zero, suc, Bool, true, false, ◌&&◌, ◌||◌, not, Option, none, some, List, [], ◌∷◌, ◌++◌, Text,
  text, ◌==◌, nat_eq, leb, length, any, is_lower, is_upper, is_alnum, take_while, drop_while,
  if◌then◌else◌,
}
use attractor.Validator.Syntax.{is_space}
use attractor.Dot.Position.{Pos, step, step_all, origin}

pub data TokenKind : Type 0 where
  identifier string_lit integer_lit float_lit bool_lit duration_lit bare_value arrow lbrace rbrace
        lbracket rbracket equals comma semicolon dash_dash lt_angle eof :
      TokenKind

unfoldable pub kind_number : TokenKind → ℕ
kind_number identifier = 0
kind_number string_lit = 1
kind_number integer_lit = 2
kind_number float_lit = 3
kind_number bool_lit = 4
kind_number duration_lit = 5
kind_number bare_value = 6
kind_number arrow = 7
kind_number lbrace = 8
kind_number rbrace = 9
kind_number lbracket = 10
kind_number rbracket = 11
kind_number equals = 12
kind_number comma = 13
kind_number semicolon = 14
kind_number dash_dash = 15
kind_number lt_angle = 16
kind_number eof = 17

-- `==` of token kinds.
unfoldable pub same_kind : TokenKind → TokenKind → Bool
unfolding kind_number
same_kind a b = nat_eq (kind_number a) (kind_number b)

pub record Token : Type 0 where
  pub kind : TokenKind
  pub value : Text
  pub line : ℕ
  pub column : ℕ

pub record Lexer : Type 0 where
  pub rest : Text
  pub pos : Pos

-- `peek` at the front of a text: 0 at its end.
unfoldable pub peek : Text → ℕ
peek [] = 0
peek (c ∷ s) = c

unfoldable pub drop_one : Text → Text
drop_one [] = []
drop_one (c ∷ s) = s

unfoldable pub is_digit : ℕ → Bool
is_digit c = leb b'0' c && leb c b'9'

unfoldable pub is_alpha : ℕ → Bool
unfolding is_lower is_upper
is_alpha c = is_lower c || is_upper c

-- A loop of `advance` over the bytes that pass a test: what it reads, and the state behind it.
unfoldable pub scan : (ℕ → Bool) → Lexer → Text
unfolding take_while
scan p l = take_while p l.rest

unfoldable pub behind : (ℕ → Bool) → Lexer → Lexer
unfolding take_while drop_while step_all
behind p l = record { rest = drop_while p l.rest; pos = step_all (take_while p l.rest) l.pos }

unfoldable pub advance : Lexer → Lexer
unfolding peek drop_one step
advance l = record { rest = drop_one l.rest; pos = step (peek l.rest) l.pos }

unfoldable pub skip_whitespace : Lexer → Lexer
unfolding is_space behind
skip_whitespace l = behind is_space l

abbrev pub token : TokenKind → Text → Pos → Token
token k v p = record { kind = k; value = v; line = p.line; column = p.col }

-- What a round of next_token does: it returns a token, or skips a byte that it does not know.
pub data Lexed : Type 0 where
  emit : Token → Lexer → Lexed
  skip : Lexer → Lexed

-- The bytes that an escape stands for.
unfoldable pub unescape : ℕ → Text
unescape c =
    if nat_eq c b'n'
    then 10 ∷ []
    else if nat_eq c b't'
    then 9 ∷ []
    else if nat_eq c b'"'
    then b'"' ∷ []
    else if nat_eq c b'\\'
    then b'\\' ∷ []
    else b'\\' ∷ (c ∷ [])

abbrev pub prepend : Text → Text × Lexer → Text × Lexer
prepend s (val, l) = (s ++ val, l)

-- The loop of a string literal, behind its opening quote, with the state behind the closing one.
unfoldable pub scan_string : Text → Pos → Text × Lexer
unfolding unescape step
scan_string [] p = ([], record { rest = []; pos = p })
scan_string (c ∷ []) p =
    (if nat_eq c b'"' then [] else c ∷ [], record { rest = []; pos = step c p })
scan_string (c ∷ (d ∷ s)) p = elim (nat_eq c b'"') [
  | true ↦ ([], record { rest = d ∷ s; pos = step c p })
  | false ↦ elim (nat_eq c b'\\') [
    | true ↦ prepend (unescape d) (scan_string s (step d (step c p)))
    | false ↦ prepend (c ∷ []) (scan_string (d ∷ s) (step c p))
  ]
]

unfoldable pub lex_string : Lexer → Lexed
unfolding scan_string
lex_string l =
    let r = scan_string (advance l).rest (advance l).pos in emit (token string_lit r.0 l.pos) r.1

-- Behind the digits `val`: a point and more digits.
unfoldable pub lex_fraction : Text → Pos → Lexer → Lexed
unfolding scan behind advance is_digit
lex_fraction val p l =
    emit (token float_lit (val ++ (b'.' ∷ scan is_digit (advance l))) p)
      (behind is_digit (advance l))

unfoldable pub is_unit : Text → Bool
is_unit s = any (λ u. s == u) (text "ms" ∷ text "s" ∷ text "m" ∷ text "h" ∷ text "d" ∷ [])

-- Behind the digits `val`: the suffix of a duration, or nothing.
unfoldable pub lex_duration : Text → Pos → Lexer → Lexed
unfolding scan behind is_alpha is_unit is_alnum peek
lex_duration val p l =
    if is_unit (scan is_alpha l) && not (is_alnum (peek (behind is_alpha l).rest))
    then emit (token duration_lit (val ++ scan is_alpha l) p) (behind is_alpha l)
    else emit (token integer_lit val p) l

unfoldable pub lex_number : Lexer → Lexed
unfolding lex_fraction lex_duration scan behind is_digit peek
lex_number l =
    let val = scan is_digit l in
    let m = behind is_digit l in
    if nat_eq (peek m.rest) b'.' then lex_fraction val l.pos m else lex_duration val l.pos m

-- At a minus sign before a digit.
unfoldable pub lex_negative : Lexer → Lexed
unfolding lex_fraction scan behind is_digit peek advance
lex_negative l =
    let val = peek l.rest ∷ scan is_digit (advance l) in
    let m = behind is_digit (advance l) in
    if nat_eq (peek m.rest) b'.'
    then lex_fraction val l.pos m
    else emit (token integer_lit val l.pos) m

-- The bytes that make a word a bare value.
unfoldable pub is_extended : ℕ → Bool
is_extended c = nat_eq c b'.' || (nat_eq c b':' || nat_eq c b'-')

unfoldable pub is_word : ℕ → Bool
unfolding is_alnum is_extended
is_word c = is_alnum c || (nat_eq c b'_' || is_extended c)

unfoldable pub word_kind : Text → TokenKind
unfolding is_extended
word_kind val =
    if val == text "true" || val == text "false"
    then bool_lit
    else if any is_extended val
    then bare_value
    else identifier

unfoldable pub lex_word : Lexer → Lexed
unfolding word_kind scan behind is_word
lex_word l = emit (token (word_kind (scan is_word l)) (scan is_word l) l.pos) (behind is_word l)

unfoldable pub symbol_kind : ℕ → Option TokenKind
symbol_kind c =
    if nat_eq c b'{'
    then some lbrace
    else if nat_eq c b'}'
    then some rbrace
    else if nat_eq c b'['
    then some lbracket
    else if nat_eq c b']'
    then some rbracket
    else if nat_eq c b'='
    then some equals
    else if nat_eq c b','
    then some comma
    else if nat_eq c b';'
    then some semicolon
    else none

unfoldable pub lex_symbol : ℕ → Lexer → Lexed
unfolding symbol_kind advance
lex_symbol c l = elim (symbol_kind c) [
  | some kind ↦ emit (token kind (c ∷ []) l.pos) (advance l)
  | none ↦ skip (advance l)
]

-- The bytes `c` and `d` at the front of the state.
unfoldable pub lex_byte : ℕ → ℕ → Lexer → Lexed
unfolding lex_string lex_negative lex_number lex_word lex_symbol is_digit is_alpha advance
lex_byte c d l =
    if nat_eq c b'"'
    then lex_string l
    else if nat_eq c b'<'
    then emit (token lt_angle (c ∷ []) l.pos) (advance l)
    else if nat_eq c b'-' && nat_eq d b'>'
    then emit (token arrow (c ∷ (d ∷ [])) l.pos) (advance (advance l))
    else if nat_eq c b'-' && nat_eq d b'-'
    then emit (token dash_dash (c ∷ (d ∷ [])) l.pos) (advance (advance l))
    else if nat_eq c b'-' && is_digit d
    then lex_negative l
    else if is_digit c
    then lex_number l
    else if is_alpha c || nat_eq c b'_'
    then lex_word l
    else lex_symbol c l

unfoldable pub lex_rest : Text → Lexer → Lexed
unfolding lex_byte peek
lex_rest [] l = emit (token eof [] l.pos) l
lex_rest (c ∷ s) l = lex_byte c (peek s) l

unfoldable pub lex : Lexer → Lexed
unfolding lex_rest
lex l = lex_rest l.rest l

unfoldable pub next_token : ℕ → Lexer → Option (Token × Lexer)
unfolding lex skip_whitespace
next_token zero l = none
next_token (suc fuel) l = elim (lex (skip_whitespace l)) [
  | emit t m ↦ some (t, m)
  | skip m ↦ next_token fuel m
]

unfoldable pub tokens_from : ℕ → Lexer → Option (List Token)
unfolding next_token same_kind
tokens_from zero l = none
tokens_from (suc fuel) l = elim (next_token (suc (length l.rest)) l) [
  | none ↦ none
  | some (t, m) ↦ elim (same_kind t.kind eof) [
    | true ↦ some (t ∷ [])
    | false ↦ elim (tokens_from fuel m) [ none ↦ none | some ts ↦ some (t ∷ ts) ]
  ]
]

unfoldable pub tokenize : Text → Option (List Token)
unfolding tokens_from
tokenize s = tokens_from (suc (length s)) (record { rest = s; pos = origin })
