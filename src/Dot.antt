-- ===== src/Dot.antt =====
-- src/dot_parser.cpp: the parser of DOT files. The parts are in the modules below: Comments
-- (strip_comments), Lexer (tokens), Values (numbers, durations and names), Attributes (what an
-- attribute sets), Variants (the shape and the variant of a node), Stream (attribute blocks),
-- Statements (nodes, edges and defaults), Parser (subgraphs and lists of statements), Source
-- (parse_graph). Position counts lines and columns; the other modules hold the proofs.
pub mod Position
pub mod Comments
pub mod Stripped
pub mod Places
pub mod Unclosed
pub mod Lexer
pub mod Rounds
pub mod Tokens
pub mod Literals
pub mod Arrows
pub mod Values
pub mod Durations
pub mod Attributes
pub mod Variants
pub mod Stream
pub mod Statements
pub mod Parser
pub mod Source
pub mod Sure
pub mod BaseIds
pub mod Ids
pub mod Joined
pub mod Growth
pub mod Kept
pub mod Shorter
pub mod Stated
pub mod Ends
pub mod Whole
pub mod Restated
pub mod Typed
pub mod Scopes
