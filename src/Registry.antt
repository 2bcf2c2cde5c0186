-- ===== src/Registry.antt =====
-- src/handler_registry.cpp, and the table that `Engine::register_default_handlers` of
-- src/engine.cpp fills. `H` is the type of the handlers.
pub mod Resolve
use attractor.Prelude.{
  Option, none, some, Text, text, Map, map_get, map_set, is_empty, List, [], if◌then◌else◌,
}
use attractor.Types.{
  NodeShape, mdiamond, msquare, box, hexagon, diamond, component, triple_octagon, parallelogram,
  house, HandlerTypeName,
}
use attractor.Graph.{Node}

-- An `unordered_map`, of which only `find` and `operator[]` are used.
pub record HandlerRegistry (H : Type 0) : Type 0 where
  pub m_handlers : Map H
  pub m_default_handler : Option H

unfoldable pub shape_to_handler_type : NodeShape → HandlerTypeName
shape_to_handler_type mdiamond = text "start"
shape_to_handler_type msquare = text "exit"
shape_to_handler_type box = text "codergen"
shape_to_handler_type hexagon = text "wait.human"
shape_to_handler_type diamond = text "conditional"
shape_to_handler_type component = text "parallel"
shape_to_handler_type triple_octagon = text "parallel.fan_in"
shape_to_handler_type parallelogram = text "tool"
shape_to_handler_type house = text "stack.manager_loop"

-- The handlers that the engine registers by itself.
pub record DefaultHandlers (H : Type 0) : Type 0 where
  pub start : H
  pub exit : H
  pub codergen : H
  pub conditional : H
  pub wait_human : H
  pub parallel : H
  pub fan_in : H
  pub tool : H
  pub fallback : H

module _ {H : Type 0} where
  abbrev pub empty_registry : HandlerRegistry H
  empty_registry = record { m_handlers = []; m_default_handler = none }

  unfoldable pub register_handler : HandlerTypeName → H → HandlerRegistry H → HandlerRegistry H
  register_handler type handler r = record r { m_handlers = map_set type handler r.m_handlers }

  unfoldable pub set_default_handler : H → HandlerRegistry H → HandlerRegistry H
  set_default_handler handler r = record r { m_default_handler = some handler }

  -- Steps 2 and 3: by shape, then the default handler. `none` is the failed assertion.
  unfoldable pub resolve_by_shape : HandlerRegistry H → NodeShape → Option H
  resolve_by_shape r shape = elim (map_get (shape_to_handler_type shape) r.m_handlers) [
    | some h ↦ some h
    | none ↦ r.m_default_handler
  ]

  unfoldable pub resolve : HandlerRegistry H → Node → Option H
  unfolding resolve_by_shape
  resolve r node =
      if is_empty node.node_type
      then resolve_by_shape r node.shape
      else elim (map_get node.node_type r.m_handlers) [
        | some h ↦ some h
        | none ↦ resolve_by_shape r node.shape
      ]

  unfoldable pub register_default_handlers :
      DefaultHandlers H → HandlerRegistry H → HandlerRegistry H
  unfolding register_handler set_default_handler
  register_default_handlers d r = set_default_handler d.fallback (
      register_handler (text "tool") d.tool (
        register_handler (text "parallel.fan_in") d.fan_in (
          register_handler (text "parallel") d.parallel (
            register_handler (text "wait.human") d.wait_human (
              register_handler (text "conditional") d.conditional (
                register_handler (text "codergen") d.codergen (
                  register_handler (text "exit") d.exit
                    (register_handler (text "start") d.start r))))))))
