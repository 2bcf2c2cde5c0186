-- ===== src/Context/Laws.antt =====
-- The operations of the context: what a read returns after them, and the values they let in.
use attractor.Prelude.{
  ◌≡◌, refl, ◌==◌, Bool, true, false, Bool-cases, inl, inr, arith, if◌then◌else◌,
}
use attractor.Json.{Json, object, Fields, end, field, set_field, get_field-set_field}
use attractor.Types.{ContextKey}
use attractor.Context.{
  Context, set, get, merge_items, merge_updates, has_non_finite_float, non_finite_fields,
}
use attractor.Context.Finite.{non_finite_fields-set_field}

-- No value in the context holds a NaN or an infinity, at any depth.
pub record IsFinite (c : Context) : Type 0 where
  pub finite_data : non_finite_fields c.m_data ≡ false

-- After `set`, a read of the key returns the value that was given, unless the value holds a
-- non-finite float: then `set` reports an error and every read is as before. Other keys keep
-- their values.
pub get-set :
    (k j : ContextKey) (v : Json) (c : Context)
    → get j (set k v c).1
      ≡ (if has_non_finite_float v then get j c else if k == j then v else get j c)
unfolding get set
get-set k j v c = ground (arith, get_field-set_field k j v c.m_data)

merge_items-finite :
    (fs m : Fields) → non_finite_fields m ≡ false → non_finite_fields (merge_items fs m) ≡ false
unfolding merge_items
merge_items-finite end m h = h
merge_items-finite (field k v rest) m h = elim (Bool-cases (has_non_finite_float v)) [
  | inl e ↦ rw e (merge_items-finite rest m h)
  | inr e ↦ rw e (merge_items-finite rest (set_field k v m) (non_finite_fields-set_field k v m e h))
]

-- `set` and `merge_updates` keep every value of the context finite, whatever they are given.
pub context-IsFinite :
    (k : ContextKey) (v updates : Json) (c : Context)
    → IsFinite c
    → IsFinite (set k v c).1 × IsFinite (merge_updates updates c)
unfolding set merge_updates
context-IsFinite k v updates c h = (by_set (has_non_finite_float v) refl, by_merge updates)
  where
    by_set : (b : Bool) → has_non_finite_float v ≡ b → IsFinite (set k v c).1
    by_set true e = rw (e, set) h
    by_set false e =
        rw (e, set)
          (record { finite_data = non_finite_fields-set_field k v c.m_data e h.finite_data })

    by_merge : (u : Json) → IsFinite (merge_updates u c)
    by_merge (object fs) = record { finite_data = merge_items-finite fs c.m_data h.finite_data }
    by_merge _ = h
