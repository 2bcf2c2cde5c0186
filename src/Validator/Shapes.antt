-- ===== src/Validator/Shapes.antt =====
-- The handler types that src/handler_registry.cpp gives to the shapes, as src/validator.cpp knows
-- them.
use attractor.Prelude.{◌≡◌, refl, ◌||◌, none, some, text, ◌==◌, if◌then◌else◌}
use attractor.Types.{
  NodeShape, mdiamond, msquare, box, hexagon, diamond, component, triple_octagon, parallelogram,
  house, same_shape,
}
use attractor.Registry.{shape_to_handler_type}
use attractor.Validator.Rules.{shape_for_handler_type}

-- The validator expects, for the handler type that the registry has for a shape, this shape; but
-- for the types of the house and of the triple octagon it expects none, so that it does not see a
-- node of another shape with one of these types.
pub shape_for_handler_type-shape_to_handler_type :
    (s : NodeShape)
    → shape_for_handler_type (shape_to_handler_type s)
      ≡ (if same_shape s house || same_shape s triple_octagon then none else some s)
unfolding shape_for_handler_type shape_to_handler_type same_shape text ◌==◌
shape_for_handler_type-shape_to_handler_type mdiamond = refl
shape_for_handler_type-shape_to_handler_type msquare = refl
shape_for_handler_type-shape_to_handler_type box = refl
shape_for_handler_type-shape_to_handler_type hexagon = refl
shape_for_handler_type-shape_to_handler_type diamond = refl
shape_for_handler_type-shape_to_handler_type component = refl
shape_for_handler_type-shape_to_handler_type triple_octagon = refl
shape_for_handler_type-shape_to_handler_type parallelogram = refl
shape_for_handler_type-shape_to_handler_type house = refl
