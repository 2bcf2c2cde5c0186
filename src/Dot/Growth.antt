-- ===== src/Dot/Growth.antt =====
-- How a statement of src/dot_parser.cpp adds nodes and edges to the graph.
use attractor.Prelude.{
  ◌≡◌, refl, sym, ap, subst, ◌∙◌, true, false, inl, inr, some, List, [], ◌∷◌, ◌++◌, Text, ==_iff,
  find, find-In, All, All-map, All-append, is_empty, ok, Option-cases, if-cases,
}
use attractor.Types.{NodeId, NodeShape, same_shape, box}
use attractor.Graph.{Graph, Node, Edge, NodeVariant, to_base}
use attractor.Engine.Env.{has_id}
use attractor.Dot.Attributes.{AttrMap, apply_attrs_to_edge}
use attractor.Dot.Variants.{default_node, variant_of, apply_attrs_to_variant, node_shape_from_attrs}
use attractor.Dot.Statements.{
  ParseContext, with_nodes, default_edge, with_class, new_node, add_node, ensure,
  ensure_node_exists, reshape, put_node, final_shape, state_node, add_edge, add_edges,
}
use attractor.Dot.Sure.{Sure, Sure-map, Sure-bind, Sure-each}
use attractor.Dot.Ids.{variant-keeps, variant_of-base, over_base-base}
use attractor.Dot.Joined.{
  ids, knows, Distinct, IsBetween, IsJoined, knows-append, knows-last, Distinct-append, find-knows,
  found-knows, ids-append, put_node-ids,
}

-- What a statement may do to the graph: it adds the node `id` where it is missing.
pub record Grown (id : NodeId) (before after : Graph) : Type 0 where
  pub edges : after.edges ≡ before.edges
  pub distinct : Distinct (ids before.nodes) → Distinct (ids after.nodes)
  pub knew : (x : NodeId) → knows (ids before.nodes) x ≡ true → knows (ids after.nodes) x ≡ true
  pub known : knows (ids after.nodes) id ≡ true

pub with_class-id : (cls : Text) (n : Node) → (with_class cls n).id ≡ n.id
unfolding with_class
with_class-id cls n =
    if-cases (λ (m : Node). m.id ≡ n.id) (is_empty cls) _ _ (λ _. refl) (λ _. refl)

new_node-id :
    (ctx : ParseContext) (id : NodeId) (shape : NodeShape) (attrs : AttrMap)
    → Sure (λ (nv : NodeVariant). (to_base nv).id ≡ id) (new_node ctx id shape attrs)
unfolding new_node
new_node-id ctx id shape attrs =
    let P : NodeVariant → Type 0 = λ nv. (to_base nv).id ≡ id in
    let start = variant_of shape (record default_node { id = id; label = id }) in
    Sure-bind P P (apply_attrs_to_variant start ctx.node_defaults) _
      (variant-keeps id start ctx.node_defaults (
        ap (λ (n : Node). n.id)
          (variant_of-base shape (record default_node { id = id; label = id }))))
      (λ n p. Sure-bind P P (apply_attrs_to_variant n attrs) _ (variant-keeps id n attrs p) (λ m q.
        ap (λ (b : Node). b.id) (over_base-base (with_class ctx.subgraph_class) m)
        ∙ (with_class-id ctx.subgraph_class (to_base m) ∙ q)))

-- A new node keeps the graph joined and is known.
add_node-Grown :
    (ctx : ParseContext) (id : NodeId) (shape : NodeShape) (attrs : AttrMap)
    → knows (ids ctx.graph.nodes) id ≡ false
    → Sure (λ (c : ParseContext). Grown id ctx.graph c.graph) (add_node ctx id shape attrs)
unfolding add_node
add_node-Grown ctx id shape attrs h =
    Sure-bind (λ (nv : NodeVariant). (to_base nv).id ≡ id)
      (λ (c : ParseContext). Grown id ctx.graph c.graph) (new_node ctx id shape attrs)
      (λ nv. ok (with_nodes (ctx.graph.nodes ++ (nv ∷ [])) ctx)) (new_node-id ctx id shape attrs)
      (λ nv p.
        let e = ids-append ctx.graph.nodes nv id p in
        record {
          edges = refl;
          distinct = λ d. subst Distinct (sym e) (Distinct-append (ids ctx.graph.nodes) id d h);
          knew = λ x k.
              subst (λ t. knows t x ≡ true) (sym e) (knows-append (ids ctx.graph.nodes) id x k);
          known = subst (λ t. knows t id ≡ true) (sym e) (knows-last (ids ctx.graph.nodes) id);
        })

same-Grown :
    (id : NodeId) (g : Graph) (nodes : List NodeVariant)
    → ids nodes ≡ ids g.nodes
    → knows (ids g.nodes) id ≡ true
    → Grown id g (record g { nodes = nodes })
same-Grown id g nodes e h = record {
  edges = refl;
  distinct = λ d. subst Distinct (sym e) d;
  knew = λ x k. subst (λ t. knows t x ≡ true) (sym e) k;
  known = subst (λ t. knows t id ≡ true) (sym e) h;
}

ensure-Grown :
    (ctx : ParseContext) (id : NodeId)
    → Sure (λ (c : ParseContext). Grown id ctx.graph c.graph) (ensure_node_exists ctx id)
unfolding ensure_node_exists ensure
ensure-Grown ctx id = elim (Option-cases (find (has_id id) ctx.graph.nodes)) [
  | inl e ↦
      rw (e, ensure_node_exists)
        (add_node-Grown ctx id (node_shape_from_attrs ctx.node_defaults box) []
          (find-knows ctx.graph.nodes id e))
  | inr o ↦
      rw (o.1, ensure_node_exists)
        (same-Grown id ctx.graph ctx.graph.nodes refl (found-knows ctx.graph.nodes id o.0 o.1))
]

reshape-id :
    (final : NodeShape) (nv : NodeVariant) → (to_base (reshape final nv)).id ≡ (to_base nv).id
unfolding reshape
reshape-id final nv =
    if-cases (λ (w : NodeVariant). (to_base w).id ≡ (to_base nv).id)
      (same_shape (to_base nv).shape final) _ _ (λ _. refl)
      (λ _. ap (λ (n : Node). n.id) (variant_of-base final (record (to_base nv) { shape = final })))

found-id :
    (nodes : List NodeVariant) (id : NodeId) (nv : NodeVariant)
    → find (has_id id) nodes ≡ some nv
    → (to_base nv).id ≡ id
unfolding has_id
found-id nodes id nv h = (==_iff (to_base nv).id id).0 (find-In (has_id id) nodes nv h).1

state_node-Grown :
    (ctx : ParseContext) (id : NodeId) (attrs : AttrMap)
    → Sure
        (λ (c : ParseContext). Grown id ctx.graph c.graph)
        (state_node (find (has_id id) ctx.graph.nodes) ctx id attrs)
unfolding state_node
state_node-Grown ctx id attrs = elim (Option-cases (find (has_id id) ctx.graph.nodes)) [
  | inl e ↦
      rw e (add_node-Grown ctx id (final_shape ctx attrs) attrs (find-knows ctx.graph.nodes id e))
  | inr o ↦
      let nv = reshape (final_shape ctx attrs) o.0 in
      let start = reshape-id (final_shape ctx attrs) o.0 ∙ found-id ctx.graph.nodes id o.0 o.1 in
      rw (o.1) (
        Sure-bind (λ (w : NodeVariant). (to_base w).id ≡ id)
          (λ (c : ParseContext). Grown id ctx.graph c.graph) (apply_attrs_to_variant nv attrs) _
          (variant-keeps id nv attrs start)
          (λ w p.
            same-Grown id ctx.graph (put_node id w ctx.graph.nodes)
              (put_node-ids id w ctx.graph.nodes p) (found-knows ctx.graph.nodes id o.0 o.1)))
]

-- The graph of a context is joined.
abbrev pub Good : ParseContext → Type 0
Good c = IsJoined c.graph

IsBetween-Grown :
    (id : NodeId) (g h : Graph)
    → Grown id g h
    → (e : Edge) → IsBetween (ids g.nodes) e
    → IsBetween (ids h.nodes) e
unfolding IsBetween
IsBetween-Grown id g h w e b = (w.knew e.source b.0, w.knew e.to b.1)

Grown-IsJoined : (id : NodeId) (g h : Graph) → Grown id g h → IsJoined g → IsJoined h
Grown-IsJoined id g h w j = record {
  distinct = w.distinct j.distinct;
  between =
      subst (All (IsBetween (ids h.nodes))) (sym w.edges)
        (All-map (IsBetween-Grown id g h w) g.edges j.between);
}

pub state_node-Good :
    (ctx : ParseContext) (id : NodeId) (attrs : AttrMap)
    → Good ctx
    → Sure Good (state_node (find (has_id id) ctx.graph.nodes) ctx id attrs)
state_node-Good ctx id attrs j =
    Sure-map (λ (c : ParseContext). Grown id ctx.graph c.graph) Good
      (state_node (find (has_id id) ctx.graph.nodes) ctx id attrs)
      (λ c w. Grown-IsJoined id ctx.graph c.graph w j) (state_node-Grown ctx id attrs)

-- The graph `g` with the edge `e`, and then with both its ends.
IsJoined-edge :
    (g h k : Graph) (e : Edge)
    → IsJoined g
    → Grown e.source (record g { edges = g.edges ++ (e ∷ []) }) h
    → Grown e.to h k
    → IsJoined k
unfolding IsBetween
IsJoined-edge g h k e j a b =
    let new : IsBetween (ids k.nodes) e = (b.knew e.source a.known, b.known) in
    let old : (d : Edge) → IsBetween (ids g.nodes) d → IsBetween (ids k.nodes) d =
      λ d w. (b.knew d.source (a.knew d.source w.0), b.knew d.to (a.knew d.to w.1)) in
    record {
      distinct = b.distinct (a.distinct j.distinct);
      between = subst (All (IsBetween (ids k.nodes))) (sym (b.edges ∙ a.edges)) (
          All-append (IsBetween (ids k.nodes)) g.edges (e ∷ []) (All-map old g.edges j.between)
            (new, tt));
    }

pub add_edge-Good :
    (attrs : AttrMap) (source to : NodeId) (ctx : ParseContext)
    → Good ctx
    → Sure Good (add_edge attrs source to ctx)
unfolding add_edge
add_edge-Good attrs source to ctx j =
    Sure-each Good (apply_attrs_to_edge default_edge ctx.edge_defaults) _ (λ d.
      Sure-each Good (apply_attrs_to_edge d attrs) _ (λ e.
        let f = record e { source = source; to = to } in
        let pushed = record ctx {
          graph = record ctx.graph { edges = ctx.graph.edges ++ (f ∷ []) };
        } in
        Sure-bind (λ (c : ParseContext). Grown source pushed.graph c.graph) Good
          (ensure_node_exists pushed source) (λ c. ensure_node_exists c to)
          (ensure-Grown pushed source)
          (λ c w.
            Sure-map (λ (u : ParseContext). Grown to c.graph u.graph) Good (ensure_node_exists c to)
              (λ u v. IsJoined-edge ctx.graph c.graph u.graph f j w v) (ensure-Grown c to))))

pub add_edges-Good :
    (attrs : AttrMap) (source : NodeId) (names : List NodeId) (ctx : ParseContext)
    → Good ctx
    → Sure Good (add_edges attrs source names ctx)
unfolding add_edges
add_edges-Good attrs source [] ctx j = j
add_edges-Good attrs source (to ∷ names) ctx j =
    Sure-bind Good Good (add_edge attrs source to ctx) (λ c. add_edges attrs to names c)
      (add_edge-Good attrs source to ctx j) (λ c k. add_edges-Good attrs to names c k)
