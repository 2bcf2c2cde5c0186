-- ===== src/Validator.antt =====
-- src/validator.cpp: the rules that a graph is checked by. The parts are in the modules below:
-- Syntax (conditions and stylesheets), Reachable (the breadth-first search), Rules (the rules that
-- always run), Warnings (the others, `validate` and `validate_or_raise`); Stylesheet, Search,
-- Reached, Errors, Accepted, Conditions and Shapes hold the proofs.
pub mod Syntax
pub mod Stylesheet
pub mod Reachable
pub mod Search
pub mod Reached
pub mod Rules
pub mod Warnings
pub mod Errors
pub mod Accepted
pub mod Conditions
pub mod Shapes
