-- ===== src/Validator/Reachable.antt =====
-- `reachable_ids` of src/validator.cpp: breadth-first search. The queue is a list with its front
-- first, the set of visited ids a list, and the adjacency map is read off the edges, whose order
-- it keeps. The `while` loop takes fuel (Search says how much is enough).
use attractor.Prelude.{
  ℕ, zero, suc, ◌+◌, Bool, Option, none, some, List, [], ◌∷◌, ◌++◌, ◌==◌, any, length,
  if◌then◌else◌,
}
use attractor.Types.{NodeId}
use attractor.Graph.{Graph, Edge}

unfoldable pub contains : List NodeId → NodeId → Bool
contains ids id = any (λ x. x == id) ids

-- `adj[cur]`.
unfoldable pub targets : List Edge → NodeId → List NodeId
targets [] cur = []
targets (e ∷ es) cur = let rest = targets es cur in if e.source == cur then e.to ∷ rest else rest

pub record Search : Type 0 where
  pub queue : List NodeId
  pub visited : List NodeId

-- `if (visited.insert(nxt).second) q.push(nxt)`.
unfoldable pub visit : Search → NodeId → Search
unfolding contains
visit s nxt =
    if contains s.visited nxt
    then s
    else record { queue = s.queue ++ nxt ∷ []; visited = nxt ∷ s.visited }

unfoldable pub visit_all : Search → List NodeId → Search
unfolding visit
visit_all s [] = s
visit_all s (nxt ∷ ids) = visit_all (visit s nxt) ids

unfoldable pub search_loop : List Edge → ℕ → List NodeId → List NodeId → Option (List NodeId)
unfolding visit_all targets
search_loop edges fuel [] visited = some visited
search_loop edges zero (cur ∷ queue) visited = none
search_loop edges (suc fuel) (cur ∷ queue) visited =
    let s = visit_all (record { queue = queue; visited = visited }) (targets edges cur) in
    search_loop edges fuel s.queue s.visited

unfoldable pub search_fuel : Graph → ℕ
search_fuel g = length g.edges + 1

unfoldable pub reachable_ids : Graph → NodeId → Option (List NodeId)
unfolding search_loop search_fuel
reachable_ids g start_id = search_loop g.edges (search_fuel g) (start_id ∷ []) (start_id ∷ [])
