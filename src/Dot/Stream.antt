-- ===== src/Dot/Stream.antt =====
-- The token stream and the attribute blocks of src/dot_parser.cpp. A stream is the list of the
-- tokens that are left.
use attractor.Prelude.{
  Bool, ◌||◌, List, [], ◌∷◌, Text, text, map_set, Result, ok, err, if◌then◌else◌,
}
use attractor.Dot.Position.{ParseError}
use attractor.Dot.Lexer.{
  TokenKind, identifier, string_lit, integer_lit, float_lit, bool_lit, duration_lit, bare_value,
  lbracket, rbracket, equals, comma, semicolon, eof, same_kind, Token,
}
use attractor.Dot.Values.{error_at}
use attractor.Dot.Attributes.{AttrMap}

-- TokenStream::peek and consume. Behind the last token there is an end with no position.
abbrev pub eof_tok : Token
eof_tok = record { kind = eof; value = []; line = 0; column = 0 }

unfoldable pub peek_token : List Token → Token
peek_token [] = eof_tok
peek_token (t ∷ ts) = t

unfoldable pub consume : List Token → List Token
consume [] = []
consume (t ∷ ts) = ts

unfoldable pub is_at : TokenKind → List Token → Bool
unfolding peek_token same_kind
is_at kind ts = same_kind (peek_token ts).kind kind

-- An error at a token.
abbrev pub error_near : Text → Token → ParseError
error_near message t = error_at message t.line t.column

-- parse_value_as_string and parse_attr_key take a token of these kinds.
unfoldable pub is_value_token : TokenKind → Bool
unfolding same_kind
is_value_token k =
    same_kind k string_lit
    || (same_kind k duration_lit
        || (same_kind k bool_lit
            || (same_kind k integer_lit
                || (same_kind k float_lit || (same_kind k identifier || same_kind k bare_value)))))

unfoldable pub is_key_token : TokenKind → Bool
unfolding same_kind
is_key_token k = same_kind k identifier || same_kind k bare_value

-- Where the loop over an attribute block stands: at a key or the end, behind a key, behind its '=',
-- or behind a value, where a comma may stand.
pub data Place : Type 0 where
  at_key : Place
  at_equals : Text → Place
  at_value : Text → Place
  at_comma : Place

-- What a place does with a token: it goes on with the map, ends the block or fails.
pub data Move : Type 0 where
  go_on : Place → AttrMap → Move
  close : Move
  fail : ParseError → Move

-- `o` is the token that opened the block.
unfoldable pub move_key : Token → AttrMap → Token → Move
unfolding same_kind is_key_token
move_key o attrs t =
    if same_kind t.kind eof
    then fail (error_near (text "unterminated attribute block") o)
    else if same_kind t.kind rbracket
    then close
    else if is_key_token t.kind
    then go_on (at_equals t.value) attrs
    else fail (error_near (text "expected attribute key") t)

unfoldable pub move : Token → Place → AttrMap → Token → Move
unfolding move_key same_kind is_value_token
move o at_key attrs t = move_key o attrs t
move o (at_equals key) attrs t =
    if same_kind t.kind equals
    then go_on (at_value key) attrs
    else fail (error_near (text "expected '=' after attribute key") t)
move o (at_value key) attrs t =
    if is_value_token t.kind
    then go_on at_comma (map_set key t.value attrs)
    else fail (error_near (text "expected attribute value") t)
move o at_comma attrs t = if same_kind t.kind comma then go_on at_key attrs else move_key o attrs t

-- At the end of the stream the token is `eof_tok`, which no place goes on with.
unfoldable pub at_end : Move → Result ParseError (AttrMap × List Token)
at_end (go_on p attrs) = ok (attrs, [])
at_end close = ok ([], [])
at_end (fail e) = err e

unfoldable pub attr_entries :
    Token → Place → AttrMap → List Token → Result ParseError (AttrMap × List Token)
unfolding move at_end
attr_entries o p attrs [] = at_end (move o p attrs eof_tok)
attr_entries o p attrs (t ∷ ts) = elim (move o p attrs t) [
  | go_on next more ↦ attr_entries o next more ts
  | close ↦ ok (attrs, ts)
  | fail e ↦ err e
]

unfoldable pub parse_attr_block : List Token → Result ParseError (AttrMap × List Token)
unfolding attr_entries peek_token consume
parse_attr_block ts = attr_entries (peek_token ts) at_key [] (consume ts)

-- An attribute block, if one stands here.
unfoldable pub optional_attrs : List Token → Result ParseError (AttrMap × List Token)
unfolding is_at parse_attr_block
optional_attrs ts = if is_at lbracket ts then parse_attr_block ts else ok ([], ts)

unfoldable pub skip_semicolon : List Token → List Token
unfolding is_at consume
skip_semicolon ts = if is_at semicolon ts then consume ts else ts
