-- ===== src/GraphJson.antt =====
-- src/graph.cpp: the JSON forms of nodes, edges and graphs. The parts are in the modules below:
-- Access (writing and reading the members of an object), Nodes (nodes), Graphs (variants, edges and
-- graphs); Lookup, NodeTrip, VariantTrip and RoundTrip hold the proofs.
pub mod Access
pub mod Lookup
pub mod Nodes
pub mod NodeTrip
pub mod Graphs
pub mod VariantTrip
pub mod RoundTrip
