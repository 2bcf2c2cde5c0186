-- ===== src/Transform.antt =====
-- src/transform.cpp: the transforms that a graph goes through before it is checked and run. The
-- parts are in the modules below: Style (the parser of stylesheets), Apply (the transforms); Parse,
-- Expand, Winner and Keeps hold the proofs.
pub mod Style
pub mod Apply
pub mod Parse
pub mod Winner
pub mod Expand
pub mod Keeps
