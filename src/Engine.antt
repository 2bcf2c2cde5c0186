-- ===== src/Engine.antt =====
-- src/engine.cpp: the engine. Env has its environment and its state, Stage the execution of one
-- node with its retries, Terminal the goal gates, Run the loop; the other modules hold the proofs.
pub mod Env
pub mod Stage
pub mod Terminal
pub mod Run
pub mod Frame
pub mod SentBack
pub mod Kinds
pub mod Moves
pub mod Termination
pub mod Retries
pub mod OpenGates
pub mod Gates
pub mod Endings
pub mod Assertions
