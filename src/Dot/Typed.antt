-- ===== src/Dot/Typed.antt =====
-- A node that src/dot_parser.cpp builds from a type alone.
use attractor.Prelude.{
  ap, List, ◌++◌, All, Result, ◌≡◌, refl, none, [], ◌∷◌, Text, text, ◌==◌, map_get, ok, ◌>>=◌,
}
use attractor.Types.{
  NodeId, NodeShape, mdiamond, msquare, box, hexagon, diamond, component, triple_octagon,
  parallelogram, house,
}
use attractor.Graph.{Node, NodeVariant, to_base}
use attractor.Dot.Position.{ParseError}
use attractor.Dot.Ids.{variant_of-base}
use attractor.GraphJson.VariantTrip.{shape_of}
use attractor.Dot.Attributes.{
  apply_each, apply_base_attr, apply_base_attrs, apply_codergen_attr, apply_tool_attr,
  apply_manager_attr, apply_wait_human_attr, apply_parallel_attr, apply_fan_in_attr,
}
use attractor.Dot.Variants.{
  node_shape_from_attrs, node_shape_from_handler_type, default_node, variant_of, over_base,
  apply_attrs_to_variant,
}
use attractor.Dot.Statements.{
  ParseContext, with_nodes, with_class, new_node, add_node, final_shape, state_node,
}

-- The shapes of the handler types.
abbrev pub type_shapes : List (Text × NodeShape)
type_shapes =
    (text "codergen", box)
    ∷ (text "tool", parallelogram)
    ∷ (text "manager.loop", house)
    ∷ (text "wait.human", hexagon)
    ∷ (text "parallel", component)
    ∷ (text "fan.in", triple_octagon)
    ∷ (text "conditional", diamond)
    ∷ (text "start", mdiamond)
    ∷ (text "exit", msquare)
    ∷ []

-- A node of the variant of a shape that has the type, but whose own shape is box.
pub record IsTyped (id : NodeId) (type : Text) (shape : NodeShape) (nv : NodeVariant) : Type 0 where
  pub variant : shape_of nv ≡ shape
  pub base : to_base nv ≡ record default_node { id = id; label = id; node_type = type }

-- Where no defaults are set and the statement is in no subgraph with a class, a node that is stated
-- first, with one of the nine handler types and nothing else, is added as a node of the variant of
-- that type, but its shape is box.
pub state_node-IsTyped :
    (ctx : ParseContext) (id : NodeId)
    → ctx.node_defaults ≡ []
    → ctx.subgraph_class ≡ []
    → All
        (λ t.
          (nv : NodeVariant) × (state_node none ctx id ((text "type", t.0) ∷ [])
            ≡ ok (with_nodes (ctx.graph.nodes ++ (nv ∷ [])) ctx))
          × IsTyped id t.0 t.1 nv)
        type_shapes
unfolding state_node add_node new_node final_shape node_shape_from_attrs variant_of
    apply_attrs_to_variant apply_each apply_base_attrs apply_base_attr apply_codergen_attr
    apply_tool_attr apply_manager_attr apply_wait_human_attr apply_parallel_attr apply_fan_in_attr
    over_base with_class map_get node_shape_from_handler_type text ◌==◌ shape_of to_base
state_node-IsTyped ctx id h k = (
  typed box (text "codergen") refl,
  (
    typed parallelogram (text "tool") refl,
    (
      typed house (text "manager.loop") refl,
      (
        typed hexagon (text "wait.human") refl,
        (
          typed component (text "parallel") refl,
          (
            typed triple_octagon (text "fan.in") refl,
            (
              typed diamond (text "conditional") refl,
              (typed mdiamond (text "start") refl, (typed msquare (text "exit") refl, tt)),
            ),
          ),
        ),
      ),
    ),
  ),
)
  where
    fresh : Text → Node
    fresh type = record default_node { id = id; label = id; node_type = type }

    by_shape :
        (s : NodeShape) (type : Text)
        → new_node ctx id s ((text "type", type) ∷ []) ≡ ok (variant_of s (fresh type))
    by_shape mdiamond type = rw (h, k) refl
    by_shape msquare type = rw (h, k) refl
    by_shape box type = rw (h, k) refl
    by_shape hexagon type = rw (h, k) refl
    by_shape diamond type = rw (h, k) refl
    by_shape component type = rw (h, k) refl
    by_shape triple_octagon type = rw (h, k) refl
    by_shape parallelogram type = rw (h, k) refl
    by_shape house type = rw (h, k) refl

    shaped : (s : NodeShape) (n : Node) → shape_of (variant_of s n) ≡ s
    shaped mdiamond n = refl
    shaped msquare n = refl
    shaped box n = refl
    shaped hexagon n = refl
    shaped diamond n = refl
    shaped component n = refl
    shaped triple_octagon n = refl
    shaped parallelogram n = refl
    shaped house n = refl

    typed :
        (s : NodeShape) (type : Text)
        → final_shape ctx ((text "type", type) ∷ []) ≡ s
        → (nv : NodeVariant) × (state_node none ctx id ((text "type", type) ∷ [])
            ≡ ok (with_nodes (ctx.graph.nodes ++ (nv ∷ [])) ctx))
          × IsTyped id type s nv
    typed s type q = (
      variant_of s (fresh type),
      rw q (
          ap
            (λ (r : Result ParseError NodeVariant).
              r >>= λ nv. ok (with_nodes (ctx.graph.nodes ++ (nv ∷ [])) ctx))
            (by_shape s type)),
      record { variant = shaped s (fresh type); base = variant_of-base s (fresh type) },
    )
