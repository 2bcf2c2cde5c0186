-- ===== src/Tests/Dots.antt =====
-- The theorems of the DOT parser, applied to short sources.
use attractor.Prelude.{
  ◌==◌, All, find, ℕ, suc, ◌≡◌, refl, Bool, true, false, none, some, List, [], ◌∷◌, ◌++◌, Text,
  text, Result, ok, err, ◌>>=◌,
}
use attractor.Types.{diamond, box, house}
use attractor.Graph.{NodeVariant, conditional_node, CodergenNode, codergen_node, to_base}
use attractor.Dot.Unclosed.{IsUnclosed, strip_comments-IsUnclosed}
use attractor.Dot.Position.{ParseError, origin, step, step_all}
use attractor.Dot.Comments.{strip_comments}
use attractor.Dot.Stripped.{SameLayout, strip_comments-SameLayout}
use attractor.Dot.Lexer.{
  Token, string_lit, bare_value, rbrace, lbrace, lex, emit, token, tokenize, next_token,
}
use attractor.Dot.Tokens.{IsClosed, tokenize-IsClosed}
use attractor.Dot.Literals.{escape, lex-escape}
use attractor.Dot.Arrows.{next_token-unspaced}
use attractor.Dot.Values.{parse_duration}
use attractor.Dot.Durations.{IsDuration, parse_duration-IsDuration}
use attractor.Dot.Variants.{default_node}
use attractor.Dot.Statements.{ParseContext, with_nodes, state_node}
use attractor.Engine.Env.{has_id}
use attractor.Dot.Restated.{IsShapeless, IsRestated, state_node-IsRestated}
use attractor.Dot.Typed.{IsTyped, type_shapes, state_node-IsTyped}
use attractor.Dot.Parser.{Stop, ListState, parse_statement_list, parse_subgraph_stmt}
use attractor.Dot.Source.{default_graph, parse_graph}
use attractor.Dot.Scopes.{IsLeft, parse_subgraph_stmt-IsLeft}
use attractor.Dot.Sure.{Ends}
use attractor.Dot.Joined.{IsJoined}
use attractor.Dot.Whole.{parse_graph-IsJoined}

-- digraph{a -> b}
abbrev source : Text
source =
    b'd' ∷ b'i' ∷ b'g' ∷ b'r' ∷ b'a' ∷ b'p' ∷ b'h' ∷ b'{' ∷ b'a' ∷ 32 ∷ b'-' ∷ b'>' ∷ 32 ∷ b'b'
    ∷ b'}' ∷ []

parse_graph-IsJoined_example : Ends IsJoined (parse_graph source)
parse_graph-IsJoined_example = parse_graph-IsJoined source

tokenize-IsClosed_example : (ts : List Token) × (tokenize source ≡ some ts) × IsClosed ts
tokenize-IsClosed_example = tokenize-IsClosed source

-- a//x and what is left of it.
abbrev commented : Text
commented = b'a' ∷ b'/' ∷ b'/' ∷ b'x' ∷ []

abbrev uncommented : Text
uncommented = b'a' ∷ 32 ∷ 32 ∷ 32 ∷ []

commented_stripped : strip_comments commented ≡ ok uncommented
unfolding strip_comments
commented_stripped = refl

strip_comments-SameLayout_example : SameLayout commented uncommented
strip_comments-SameLayout_example =
    strip_comments-SameLayout commented uncommented commented_stripped

-- A text with a quote.
abbrev quoted : Text
quoted = b'a' ∷ b'"' ∷ []

lex-escape_example :
    lex (record { rest = b'"' ∷ (escape quoted ++ (b'"' ∷ source)); pos = origin })
    ≡ emit
        (token string_lit quoted origin)
        (record { rest = source; pos = step b'"' (step_all (escape quoted) (step b'"' origin)) })
lex-escape_example = lex-escape quoted source origin

-- The word "ab", followed by an arrow.
next_token-unspaced_example :
    next_token 1 (record { rest = (b'a' ∷ (b'b' ∷ [])) ++ (b'-' ∷ (b'>' ∷ source)); pos = origin })
    ≡ some (
      token bare_value ((b'a' ∷ (b'b' ∷ [])) ++ (b'-' ∷ [])) origin,
      record { rest = b'>' ∷ source; pos = step_all ((b'a' ∷ (b'b' ∷ [])) ++ (b'-' ∷ [])) origin },
    )
unfolding attractor.Dot.Arrows.starts_word attractor.Dot.Lexer.is_alpha attractor.Prelude.all
    attractor.Dot.Lexer.is_word
next_token-unspaced_example = next_token-unspaced b'a' (b'b' ∷ []) source origin 0 refl refl

-- 15m
abbrev minutes : Text
minutes = b'1' ∷ b'5' ∷ b'm' ∷ []

minutes_read : parse_duration minutes ≡ some 900000
unfolding parse_duration attractor.Prelude.all attractor.Prelude.◌==◌ text
minutes_read = refl

parse_duration-IsDuration_example : IsDuration minutes 900000
parse_duration-IsDuration_example = parse_duration-IsDuration minutes 900000 minutes_read

abbrev empty_context : ParseContext
empty_context = record {
  node_defaults = [];
  edge_defaults = [];
  subgraph_class = [];
  graph = default_graph;
}

-- A node of the shape diamond.
abbrev decision : NodeVariant
decision =
    conditional_node (record default_node { id = b'd' ∷ []; label = b'd' ∷ []; shape = diamond })

shapeless : IsShapeless []
unfolding attractor.Prelude.map_get
shapeless = record { no_shape = refl; no_type = refl }

abbrev one_decision : ParseContext
one_decision = record empty_context { graph = record default_graph { nodes = decision ∷ [] } }

abbrev turned_decision : CodergenNode
turned_decision = record {
  base = record (to_base decision) { shape = box };
  prompt = [];
  llm_model = [];
  llm_provider = [];
  reasoning_effort = none;
}

abbrev restated : ParseContext
restated = record empty_context {
  graph = record default_graph { nodes = codergen_node turned_decision ∷ [] };
}

decision_found : find (has_id (b'd' ∷ [])) one_decision.graph.nodes ≡ some decision
unfolding find has_id to_base ◌==◌
decision_found = refl

decision_restated :
    state_node (find (has_id (b'd' ∷ [])) one_decision.graph.nodes) one_decision (b'd' ∷ []) []
    ≡ ok restated
unfolding find has_id to_base ◌==◌ state_node
decision_restated = refl

state_node-IsRestated_example : IsRestated (b'd' ∷ []) one_decision restated
unfolding attractor.Types.same_shape to_base
state_node-IsRestated_example =
    state_node-IsRestated decision one_decision restated (b'd' ∷ []) [] refl shapeless shapeless
      decision_found decision_restated

state_node-IsTyped_example :
    All
      (λ t.
        (nv : NodeVariant) × (state_node none empty_context (b'm' ∷ []) ((text "type", t.0) ∷ [])
          ≡ ok (with_nodes (nv ∷ []) empty_context))
        × IsTyped (b'm' ∷ []) t.0 t.1 nv)
      type_shapes
state_node-IsTyped_example = state_node-IsTyped empty_context (b'm' ∷ []) refl refl

-- {}
abbrev braces : List Token
braces = token lbrace [] origin ∷ (token rbrace [] origin ∷ [])

abbrev list_of : ListState → Result Stop ListState
list_of s = parse_statement_list 2 true s

abbrev behind_braces : ListState
behind_braces = record { ctx = empty_context; label = []; stream = [] }

braces_parsed : parse_subgraph_stmt list_of braces empty_context ≡ ok behind_braces
unfolding parse_subgraph_stmt parse_statement_list
braces_parsed = refl

parse_subgraph_stmt-IsLeft_example : IsLeft list_of empty_context behind_braces
parse_subgraph_stmt-IsLeft_example =
    parse_subgraph_stmt-IsLeft list_of braces empty_context behind_braces braces_parsed

-- a, and a quote that nothing closes.
abbrev unclosed : Text
unclosed = b'a' ∷ b'"' ∷ b'b' ∷ []

abbrev unclosed_error : ParseError
unclosed_error = record { message = text "unterminated string literal"; line = 1; column = 2 }

unclosed_refused : strip_comments unclosed ≡ err unclosed_error
unfolding strip_comments
unclosed_refused = refl

strip_comments-IsUnclosed_example : IsUnclosed unclosed unclosed_error
strip_comments-IsUnclosed_example =
    strip_comments-IsUnclosed unclosed unclosed_error unclosed_refused
