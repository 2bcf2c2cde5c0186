-- ===== src/Dot/Restated.antt =====
-- A node that is stated again, in src/dot_parser.cpp.
use attractor.Prelude.{
  sym, ap, subst, ◌∙◌, true, List, Bool-cases, inl, inr, find, find-In, ==_iff, Result, err, ◌≡◌,
  refl, false, none, some, [], ◌∷◌, text, ◌==◌, map_get, ok, ◌>>=◌,
}
use attractor.Types.{NodeId, NodeShape, box, same_shape}
use attractor.Graph.{NodeVariant, to_base, CodergenNode, codergen_node}
use attractor.Engine.Env.{has_id}
use attractor.Dot.Position.{ParseError}
use attractor.Dot.Sure.{Sure, Sure-each}
use attractor.Dot.Ids.{variant-keeps}
use attractor.Dot.Attributes.{AttrMap, apply_each, apply_base_attrs, apply_codergen_attr}
use attractor.Dot.Variants.{node_shape_from_attrs, variant_of, apply_attrs_to_variant}
use attractor.Dot.Statements.{ParseContext, with_nodes, reshape, put_node, final_shape, state_node}

-- The map gives a node no shape, neither by name nor by type.
pub record IsShapeless (attrs : AttrMap) : Type 0 where
  pub no_shape : map_get (text "shape") attrs ≡ none
  pub no_type : map_get (text "type") attrs ≡ none

shapeless-from_attrs :
    (attrs : AttrMap) (d : NodeShape) → IsShapeless attrs → node_shape_from_attrs attrs d ≡ d
unfolding node_shape_from_attrs
shapeless-from_attrs attrs d h = rw (h.no_shape, h.no_type) refl

final_shape-box :
    (ctx : ParseContext) (attrs : AttrMap)
    → IsShapeless attrs
    → IsShapeless ctx.node_defaults
    → final_shape ctx attrs ≡ box
unfolding final_shape
final_shape-box ctx attrs h k =
    rw (shapeless-from_attrs attrs (node_shape_from_attrs ctx.node_defaults box) h)
      (shapeless-from_attrs ctx.node_defaults box k)

-- The node of the id after the statement, and those of other ids.
put_node-found :
    (id : NodeId) (w : NodeVariant) (nodes : List NodeVariant) (nv : NodeVariant)
    → has_id id w ≡ true
    → find (has_id id) nodes ≡ some nv
    → find (has_id id) (put_node id w nodes) ≡ some w
unfolding put_node find
put_node-found id w [] nv h e = absurd (cc)
put_node-found id w (n ∷ nodes) nv h e = elim (Bool-cases (has_id id n)) [
  | inl q ↦ rw (q, put_node) (rw (h, find) refl)
  | inr q ↦ rw (q, put_node) (rw (q, find) (put_node-found id w nodes nv h (rw q at e)))
]

-- A node has one id.
ids_differ :
    (id other : NodeId) (n : NodeVariant)
    → (id == other) ≡ false
    → has_id id n ≡ true
    → has_id other n ≡ false
unfolding has_id
ids_differ id other n d h =
    subst (λ t. (t == other) ≡ false) (sym ((==_iff (to_base n).id id).0 h)) d

put_node-other :
    (id other : NodeId) (w : NodeVariant) (nodes : List NodeVariant)
    → (id == other) ≡ false
    → has_id id w ≡ true
    → find (has_id other) (put_node id w nodes) ≡ find (has_id other) nodes
unfolding put_node find
put_node-other id other w [] d h = refl
put_node-other id other w (n ∷ nodes) d h = elim (Bool-cases (has_id id n)) [
  | inl q ↦ rw (q, put_node) (rw (ids_differ id other w d h, ids_differ id other n d q, find) refl)
  | inr q ↦
      rw (q, put_node)
        (elim (Bool-cases (has_id other n)) [
          | inl r ↦ rw (r, find) refl
          | inr r ↦ rw (r, find) (put_node-other id other w nodes d h)
        ])
]

-- A codergen node with the id.
abbrev Codergen : NodeId → NodeVariant → Type 0
Codergen id w = ((to_base w).id ≡ id) × ((n : CodergenNode) × (w ≡ codergen_node n))

Sure-both :
    {A : Type 0} (P Q : A → Type 0) (r : Result ParseError A)
    → Sure P r
    → Sure Q r
    → Sure (λ a. P a × Q a) r
Sure-both P Q (ok a) p q = (p, q)
Sure-both P Q (err e) p q = tt

codergen-stays :
    (n : CodergenNode) (attrs : AttrMap)
    → Sure
        (λ w. (d : CodergenNode) × (w ≡ codergen_node d))
        (apply_attrs_to_variant (codergen_node n) attrs)
unfolding apply_attrs_to_variant
codergen-stays n attrs =
    Sure-each (λ w. (d : CodergenNode) × (w ≡ codergen_node d)) (apply_base_attrs n.base attrs) _
      (λ b.
        Sure-each (λ w. (d : CodergenNode) × (w ≡ codergen_node d))
          (apply_each apply_codergen_attr (record n { base = b }) attrs) _ (λ d. (d, refl)))

-- What the statement makes of the nodes.
pub record IsRestated (id : NodeId) (before after : ParseContext) : Type 0 where
  pub node : CodergenNode
  pub found : find (has_id id) after.graph.nodes ≡ some (codergen_node node)
  pub others :
      (other : NodeId)
      → (id == other) ≡ false
      → find (has_id other) after.graph.nodes ≡ find (has_id other) before.graph.nodes
  pub same_edges : after.graph.edges ≡ before.graph.edges

replaced-IsRestated :
    (ctx : ParseContext) (id : NodeId) (nv : NodeVariant) (r : Result ParseError NodeVariant)
    → find (has_id id) ctx.graph.nodes ≡ some nv
    → Sure (Codergen id) r
    → Sure (IsRestated id ctx) (r >>= λ w. ok (with_nodes (put_node id w ctx.graph.nodes) ctx))
unfolding has_id
replaced-IsRestated ctx id nv (err e) f h = tt
replaced-IsRestated ctx id nv (ok w) f (q, (n, e)) =
    let same : ((to_base w).id == id) ≡ true = (==_iff (to_base w).id id).1 q in
    record {
      node = n;
      found = put_node-found id w ctx.graph.nodes nv same f ∙ ap (λ x. some x) e;
      others = λ other d. put_node-other id other w ctx.graph.nodes d same;
      same_edges = refl;
    }

-- A node of another shape than box that is stated again, with no shape or type in the statement
-- and in the defaults, is a codergen node behind the statement, whatever it was before; the nodes of
-- other ids and the edges are as they were.
pub state_node-IsRestated :
    (nv : NodeVariant) (ctx after : ParseContext) (id : NodeId) (attrs : AttrMap)
    → same_shape (to_base nv).shape box ≡ false
    → IsShapeless attrs
    → IsShapeless ctx.node_defaults
    → find (has_id id) ctx.graph.nodes ≡ some nv
    → state_node (find (has_id id) ctx.graph.nodes) ctx id attrs ≡ ok after
    → IsRestated id ctx after
unfolding state_node reshape variant_of has_id to_base
state_node-IsRestated nv ctx after id attrs e h k f s =
    let base = record (to_base nv) { shape = box } in
    let same = (==_iff (to_base nv).id id).0 (find-In (has_id id) ctx.graph.nodes nv f).1 in
    let w = apply_attrs_to_variant (variant_of box base) attrs in
    let restated : state_node (some nv) ctx id attrs
        ≡ (w >>= λ x. ok (with_nodes (put_node id x ctx.graph.nodes) ctx)) =
      rw (final_shape-box ctx attrs h k, e) refl in
    subst (Sure (IsRestated id ctx))
      (sym restated ∙ ap (λ o. state_node o ctx id attrs) (sym f) ∙ s)
      (replaced-IsRestated ctx id nv w f (
        Sure-both (λ x. (to_base x).id ≡ id) (λ x. (d : CodergenNode) × (x ≡ codergen_node d)) w
          (variant-keeps id (variant_of box base) attrs same) (codergen-stays _ attrs)))
