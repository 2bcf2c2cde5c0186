-- ===== src/Registry/Resolve.antt =====
-- Which handler a node gets.
use attractor.Prelude.{◌≡◌, refl, some, text, [], ◌==◌, map_get, map_set, text_lt}
use attractor.Types.{
  NodeShape, mdiamond, msquare, box, hexagon, diamond, component, triple_octagon, parallelogram,
  house,
}
use attractor.Graph.{Node}
use attractor.Registry.{
  DefaultHandlers, shape_to_handler_type, resolve, resolve_by_shape, register_default_handlers,
  empty_registry,
}

module _ {H : Type 0} where
  abbrev pub default_for : DefaultHandlers H → NodeShape → H
  default_for d mdiamond = d.start
  default_for d msquare = d.exit
  default_for d box = d.codergen
  default_for d hexagon = d.wait_human
  default_for d diamond = d.conditional
  default_for d component = d.parallel
  default_for d triple_octagon = d.fan_in
  default_for d parallelogram = d.tool
  default_for d house = d.fallback

  defaults_by_shape :
      (d : DefaultHandlers H) (shape : NodeShape)
      → resolve_by_shape (register_default_handlers d empty_registry) shape
        ≡ some (default_for d shape)
  unfolding resolve_by_shape register_default_handlers shape_to_handler_type text ◌==◌ map_get
      map_set text_lt
  defaults_by_shape d mdiamond = refl
  defaults_by_shape d msquare = refl
  defaults_by_shape d box = refl
  defaults_by_shape d hexagon = refl
  defaults_by_shape d diamond = refl
  defaults_by_shape d component = refl
  defaults_by_shape d triple_octagon = refl
  defaults_by_shape d parallelogram = refl
  defaults_by_shape d house = refl

  -- In the engine's own registry a node with no explicit type gets the handler of its shape, and a
  -- house node, for which none is registered, gets the fallback.
  pub resolve-defaults :
      (d : DefaultHandlers H) (node : Node)
      → node.node_type ≡ []
      → resolve (register_default_handlers d empty_registry) node ≡ some (default_for d node.shape)
  unfolding resolve
  resolve-defaults d node e = rw e (defaults_by_shape d node.shape)
