-- ===== src/Lib.antt =====
-- Attractor runs pipelines: a graph of nodes and edges, read from a DOT file, is checked by the
-- validator and run by the engine, which executes the handler of a node, keeps a context and the
-- outcomes of the nodes, chooses the next edge, and at a terminal node looks at the goal gates.
--
-- The parts and their files (paths from the root of the repository):
--   Types, Graph, Handler, Checkpoint  include/attractor/types.hpp, graph.hpp, handler.hpp,
--     run_config.hpp and checkpoint.hpp: the data. A strong typedef is its string, a string the
--     list of its bytes, `Edge::from` the field `source`.
--   Names  src/types.cpp: the JSON forms of the string types and the enumerations; those of the
--     constrained numbers and of the shapes are in GraphJson.
--   Json  the values of nlohmann::json and what the program does with them. The printer of JSON is
--     a parameter (`dump`).
--   Context  src/context.cpp. Each operation holds the lock, so it is one step.
--   Condition  the condition language in src/engine.cpp (lookup_context, eval_clause,
--     eval_condition).
--   Selection  select_edge of src/engine.cpp. std::sort leaves open which of two equal edges comes
--     first; the model takes the first in the order of the graph.
--   Fidelity  resolve_fidelity and resolve_thread_key of src/engine.cpp.
--   Interview  include/attractor/interviewer.hpp and src/interviewers: an interviewer is what `ask`
--     does to a state.
--   Handlers  the start, exit, conditional, manager loop and human gate handlers of src/handlers,
--     how the parallel handler joins the results of its branches (Parallel), and the fan-in
--     handler (FanIn). The answer of a backend, the conversion of JSON numbers to double and the
--     two tests on scores are parameters.
--   Backoff  compute_backoff_delay of src/engine.cpp, in milliseconds.
--   Registry  src/handler_registry.cpp and Engine::register_default_handlers. `none` is the failed
--     assertion for a registry with no default handler.
--   Engine  Engine::run and Engine::run_from of src/engine.cpp. Env holds what the engine works
--     with: the registry, the observer, the sleep and the checkpoint file, each on a state `W` of
--     the world outside, which every call threads through. RunState holds the local variables of
--     run_from. Stage is the execution of a node with its retries, Terminal the goal gates, and
--     Run a round of the loop (`step`), the recursion at a restart and the resume.
--   Validator  src/validator.cpp: Syntax (conditions and stylesheets), Reachable (the search),
--     Rules and Warnings (the rules, `validate`, `validate_or_raise`).
--   Transform  src/transform.cpp: Style (the parser of stylesheets), Apply (the expansion of
--     variables, what a stylesheet sets, apply_transforms); proofs on them in the other modules.
--   Dot  src/dot_parser.cpp: Comments (strip_comments), Lexer, Values, Attributes, Variants, Stream
--     (TokenStream and attribute blocks), Statements, Parser (subgraphs and lists of statements),
--     Source (parse_graph). A parser takes the tokens that are left and returns a result with
--     those behind it; the ParseContext is threaded through. The attributes of a block, a
--     std::unordered_map, are kept in the order of their keys. Proofs are in the other modules:
--     Stripped, Places, Unclosed (comments), Rounds, Tokens, Literals, Arrows (the lexer),
--     Durations (values), Kept, BaseIds, Ids, Ends, Joined, Restated, Typed, Scopes (graphs),
--     Growth, Shorter, Sure, Stated, Whole (the parser returns).
--   GraphJson  src/graph.cpp, and from src/types.cpp what it uses: Access (the members of an
--     object and the constrained numbers), Nodes, Graphs; the round trip in the other modules. The
--     readers of integers of nlohmann::json are the record Reader, and what the library documents of
--     them IsReader. An object is written from the empty value and read into a fresh one.
--   Prelude  shared types, tests, lemmas on lists, texts, maps and sorting. A std::map is a list of
--     entries, an int that is never negative a natural number; the two counters keep the wrap of
--     32 bits.
--   Tests  sample pipelines.
--
-- Loops on fuel: run_loop takes a round for each unit of fuel (Engine/Termination says how much is
-- enough for a graph whose plain edges do not form a cycle; the program itself may run for ever
-- in other graphs), reachable_ids one for each edge and one more, the stylesheet parser one for
-- each byte; Reached and Stylesheet show that these suffice. The lexer takes one for each byte, a
-- list of statements one for each token and one more, the parser of the stylesheets that are
-- applied and replace_all one for each byte. A decimal number has no more digits than its fuel, the
-- number itself and one more.
--
-- Not modelled: the artifact store, the JSON form of checkpoints, the handlers that start processes
-- or language models, the thread pool of the parallel handler, the console interviewer, and the
-- command line program with its backends, which are input and output around external programs.
pub mod Prelude
pub mod Json
pub mod Types
pub mod Names
pub mod Graph
pub mod GraphJson
pub mod Handler
pub mod Context
pub mod Condition
pub mod Selection
pub mod Fidelity
pub mod Backoff
pub mod Registry
pub mod Checkpoint
pub mod Interview
pub mod Handlers
pub mod Engine
pub mod Dot
pub mod Transform
pub mod Validator
pub mod Tests
