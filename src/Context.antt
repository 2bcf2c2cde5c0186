-- ===== src/Context.antt =====
-- src/context.cpp and include/attractor/context.hpp: the context of a run. Every operation holds
-- the lock of the object while it runs, so it is one step.
mod Finite
pub mod Laws
use attractor.Prelude.{
  ℕ, ◌+◌, ◌%◌, ◌^◌, Bool, true, false, none, some, Text, text, Result, ok, err, if◌then◌else◌,
}
use attractor.Json.{
  Double, finite, infinite, nan, Json, null, boolean, integer, float, str, array, object, Items,
  nil, cons, Fields, end, field, get_field, set_field,
}
use attractor.Types.{ContextKey}
unfoldable pub use Finite.*

pub record Context : Type 0 where
  pub m_data : Fields
  -- the bits of an `int`
  pub m_execution_counter : ℕ

abbrev pub empty_context : Context
empty_context = record { m_data = end; m_execution_counter = 0 }

unfoldable pub set : ContextKey → Json → Context → Result Text (Unit {0}) × Context
set key value c =
    if has_non_finite_float value
    then (err (text "Context::set: not JSON-serializable: non-finite float"), c)
    else (ok tt, record c { m_data = set_field key value c.m_data })

unfoldable pub get : ContextKey → Context → Json
get key c = elim (get_field key c.m_data) [ none ↦ null | some v ↦ v ]

unfoldable pub snapshot : Context → Json
snapshot c = object c.m_data

-- The loop over `updates.items()`.
unfoldable pub merge_items : Fields → Fields → Fields
merge_items end m = m
merge_items (field k v rest) m =
    merge_items rest (if has_non_finite_float v then m else set_field k v m)

unfoldable pub merge_updates : Json → Context → Context
unfolding merge_items
merge_updates (object fs) c = record c { m_data = merge_items fs c.m_data }
merge_updates updates c = c

-- `fetch_add`; the engine drops the value that it returns.
unfoldable pub next_execution_counter : Context → Context
next_execution_counter c = record c { m_execution_counter = (c.m_execution_counter + 1) % 2 ^ 32 }

abbrev pub set_execution_counter : ℕ → Context → Context
set_execution_counter v c = record c { m_execution_counter = v }
