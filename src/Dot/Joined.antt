-- ===== src/Dot/Joined.antt =====
-- The ids of the nodes that the statements of src/dot_parser.cpp add, and the ends of the edges.
use attractor.Prelude.{
  ◌≡◌, refl, sym, ap, ◌∙◌, Bool, true, false, inl, inr, none, some, List, [], ◌∷◌, ◌++◌, map, ◌==◌,
  ==_iff, ==_refl, any, find, All, Bool-cases, arith,
}
use attractor.Types.{NodeId}
use attractor.Graph.{Graph, Edge, NodeVariant, to_base}
use attractor.Engine.Env.{has_id}
use attractor.Dot.Statements.{put_node}

unfoldable pub ids : List NodeVariant → List NodeId
unfolding to_base
ids nodes = map (λ nv. (to_base nv).id) nodes

unfoldable pub knows : List NodeId → NodeId → Bool
unfolding any
knows names id = any (λ n. n == id) names

unfoldable pub Distinct : List NodeId → Type 0
unfolding knows
Distinct [] = Unit
Distinct (n ∷ names) = (knows names n ≡ false) × Distinct names

-- The ends of an edge are among the names.
unfoldable pub IsBetween : List NodeId → Edge → Type 0
unfolding knows
IsBetween names e = (knows names e.source ≡ true) × (knows names e.to ≡ true)

-- No two nodes have one id, and every edge is between nodes of the graph.
pub record IsJoined (g : Graph) : Type 0 where
  pub distinct : Distinct (ids g.nodes)
  pub between : All (IsBetween (ids g.nodes)) g.edges

pub knows-append :
    (names : List NodeId) (id x : NodeId)
    → knows names x ≡ true
    → knows (names ++ (id ∷ [])) x ≡ true
unfolding knows any
knows-append [] id x h = absurd (cc)
knows-append (n ∷ names) id x h = ground (arith, knows-append names id x)

pub knows-last : (names : List NodeId) (id : NodeId) → knows (names ++ (id ∷ [])) id ≡ true
unfolding knows any
knows-last [] id = rw (==_refl id) refl
knows-last (n ∷ names) id = ground (arith, knows-last names id)

unknown-append :
    (names : List NodeId) (id x : NodeId)
    → knows names x ≡ false
    → (id == x) ≡ false
    → knows (names ++ (id ∷ [])) x ≡ false
unfolding knows any
unknown-append [] id x h k = rw k refl
unknown-append (n ∷ names) id x h k = ground (arith, unknown-append names id x)

pub Distinct-append :
    (names : List NodeId) (id : NodeId)
    → Distinct names
    → knows names id ≡ false
    → Distinct (names ++ (id ∷ []))
unfolding Distinct knows any
Distinct-append [] id d h = (refl, tt)
Distinct-append (n ∷ names) id d h = (
  unknown-append names id n d.0 (ground (arith, ==_iff n id, ==_iff id n)),
  Distinct-append names id d.1 (ground arith),
)

pub find-knows :
    (nodes : List NodeVariant) (id : NodeId)
    → find (has_id id) nodes ≡ none
    → knows (ids nodes) id ≡ false
unfolding find has_id knows ids any
find-knows [] id h = refl
find-knows (nv ∷ nodes) id h = ground (arith, find-knows nodes id)

pub found-knows :
    (nodes : List NodeVariant) (id : NodeId) (nv : NodeVariant)
    → find (has_id id) nodes ≡ some nv
    → knows (ids nodes) id ≡ true
unfolding find has_id knows ids any
found-knows [] id nv h = absurd (cc)
found-knows (n ∷ nodes) id nv h = ground (arith, found-knows nodes id nv)

pub ids-append :
    (nodes : List NodeVariant) (nv : NodeVariant) (id : NodeId)
    → (to_base nv).id ≡ id
    → ids (nodes ++ (nv ∷ [])) ≡ ids nodes ++ (id ∷ [])
unfolding ids
ids-append [] nv id h = ap (λ t. t ∷ []) h
ids-append (n ∷ nodes) nv id h = ap (λ t. (to_base n).id ∷ t) (ids-append nodes nv id h)

pub put_node-ids :
    (id : NodeId) (w : NodeVariant) (nodes : List NodeVariant)
    → (to_base w).id ≡ id
    → ids (put_node id w nodes) ≡ ids nodes
unfolding ids put_node has_id
put_node-ids id w [] h = refl
put_node-ids id w (nv ∷ nodes) h = elim (Bool-cases ((to_base nv).id == id)) [
  | inl e ↦
      rw (e, put_node)
        (ap (λ t. t ∷ map (λ v. (to_base v).id) nodes) (h ∙ sym ((==_iff (to_base nv).id id).0 e)))
  | inr e ↦ rw (e, put_node) (ap (λ t. (to_base nv).id ∷ t) (put_node-ids id w nodes h))
]
