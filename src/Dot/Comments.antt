-- ===== src/Dot/Comments.antt =====
-- `strip_comments` of src/dot_parser.cpp. What the loop is in, code, a string or a comment, is the
-- mode of the model; a string and a block comment keep the position where they opened.
use attractor.Prelude.{ℕ, [], ◌∷◌, ◌++◌, Text, text, Result, ok, err, nat_eq, ◌&&◌, if◌then◌else◌}
use attractor.Dot.Position.{ParseError, Pos, step, origin}

pub data Mode : Type 0 where
  code : Mode
  in_string : Pos → Mode
  in_line : Mode
  in_block : Pos → Mode

-- What a round writes, for one byte or for two, and the mode that it goes on in.
pub data Action : Type 0 where
  one : ℕ → Mode → Action
  two : ℕ → ℕ → Mode → Action

-- A byte of a block comment.
unfoldable pub blank : ℕ → ℕ
blank c = if nat_eq c 10 then 10 else 32

-- A round at the byte `c`, followed by `d`. The first byte of a line comment is no newline, so that
-- it is blanked as the others are.
unfoldable pub action : Mode → Pos → ℕ → ℕ → Action
unfolding blank
action code p c d =
    if nat_eq c b'"'
    then one c (in_string p)
    else if nat_eq c b'/' && nat_eq d b'/'
    then one 32 in_line
    else if nat_eq c b'/' && nat_eq d b'*'
    then two 32 32 (in_block p)
    else one c code
action (in_string o) p c d =
    if nat_eq c b'\\'
    then two c d (in_string o)
    else if nat_eq c b'"'
    then one c code
    else one c (in_string o)
action in_line p c d = if nat_eq c 10 then one c code else one 32 in_line
action (in_block o) p c d =
    if nat_eq c b'*' && nat_eq d b'/' then two 32 32 code else one (blank c) (in_block o)

-- A round at the last byte.
unfoldable pub last_out : Mode → ℕ → ℕ
unfolding blank
last_out code c = c
last_out (in_string o) c = c
last_out in_line c = blank c
last_out (in_block o) c = blank c

unfoldable pub last_mode : Mode → Pos → ℕ → Mode
last_mode code p c = if nat_eq c b'"' then in_string p else code
last_mode (in_string o) p c = if nat_eq c b'"' then code else in_string o
last_mode in_line p c = in_line
last_mode (in_block o) p c = in_block o

abbrev error_at : Text → Pos → ParseError
error_at message p = record { message = message; line = p.line; column = p.col }

-- At the end of the text.
unfoldable pub finish : Mode → Result ParseError Text
finish code = ok []
finish (in_string o) = err (error_at (text "unterminated string literal") o)
finish in_line = ok []
finish (in_block o) = err (error_at (text "unterminated block comment") o)

abbrev pub put : Text → Result ParseError Text → Result ParseError Text
put out (ok s) = ok (out ++ s)
put out (err e) = err e

unfoldable pub strip : Mode → Pos → Text → Result ParseError Text
unfolding action last_out last_mode finish step
strip m p [] = finish m
strip m p (c ∷ []) = put (last_out m c ∷ []) (finish (last_mode m p c))
strip m p (c ∷ (d ∷ s)) = elim (action m p c d) [
  | one o next ↦ put (o ∷ []) (strip next (step c p) (d ∷ s))
  | two o1 o2 next ↦ put (o1 ∷ (o2 ∷ [])) (strip next (step d (step c p)) s)
]

unfoldable pub strip_comments : Text → Result ParseError Text
unfolding strip
strip_comments source = strip code origin source
